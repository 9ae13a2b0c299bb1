-- ===== src/Coredump/Records.antt =====
-- The structures of a dump, and their sizes.
use package.amdhardware_kernel.Common.{ℕ, Bool, List}

pub record QueueDump : Type 0 where
  pub cmd_base : ℕ
  pub cmd_size : ℕ
  pub cmd_head : ℕ
  pub cmd_tail : ℕ

-- `struct mgpu_register_dump`
pub record RegisterDump : Type 0 where
  pub version : ℕ
  pub caps : ℕ
  pub control : ℕ
  pub status : ℕ
  pub scratch : ℕ
  pub irq_status : ℕ
  pub irq_enable : ℕ
  pub command_queue : List QueueDump
  pub fence_addr : ℕ
  pub fence_value : ℕ
  pub vertex_base : ℕ
  pub vertex_count : ℕ
  pub vertex_stride : ℕ
  pub shader_pc : ℕ
  pub shader_addr : ℕ
  pub shader_data : ℕ
  pub shader_ctrl : ℕ

pub record SlotDump : Type 0 where
  pub slot : ℕ
  pub kind : ℕ
  pub size : ℕ
  pub loaded : ℕ

-- `struct mgpu_shader_dump`
pub record ShaderDump : Type 0 where
  pub active_slots : ℕ
  pub pc_values : List ℕ
  pub slots : List SlotDump

-- `struct mgpu_cmdring_dump`; `data` is dwords.
pub record CmdringDump : Type 0 where
  pub queue_id : ℕ
  pub size : ℕ
  pub head : ℕ
  pub tail : ℕ
  pub num_commands : ℕ
  pub data_dwords : List ℕ

-- The pieces of the description, in order.
pub data Remark : Type 0 where
  error_detected : ℕ → Remark
  halted_hung queue_full : Remark

-- `struct mgpu_error_dump`, without the address and the data, which stay 0.
pub record ErrorDump : Type 0 where
  pub error_code : ℕ
  pub hang_detected : Bool
  pub last_fence : ℕ
  pub last_cmd_head : ℕ
  pub timestamp : ℕ
  pub description : List Remark

-- The sizes of the packed structures, that of the ring's without its data.
abbrev pub register_dump_size : ℕ
register_dump_size = 320

abbrev pub cmdring_dump_size : ℕ
cmdring_dump_size = 20

abbrev pub shader_dump_size : ℕ
shader_dump_size = 324

abbrev pub error_dump_size : ℕ
error_dump_size = 288
