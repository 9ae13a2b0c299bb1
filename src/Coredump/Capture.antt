-- ===== src/Coredump/Capture.antt =====
-- What a dump captures of the device: its registers, its shader slots, its command ring, its
-- instruction memory and its error.
use package.amdhardware_kernel.Common.{
  ℕ, zero, suc, ◌+◌, ◌-◌, ◌*◌, ◌/◌, ◌^◌, Bool, true, false, ◌||◌, Option, none, some, List, [], ◌∷◌,
  ◌++◌, leb, ◌==◌, if◌then◌else◌, bit_or, flag, take, replicate,
}
use package.amdhardware_kernel.Bus.{Hw, Io, ◌>>=◌, ◌>>◌, pure, read, write}
use package.amdhardware_kernel.Bus.Regs.{
  reg_version, reg_caps, reg_control, reg_status, reg_scratch, reg_irq_status, reg_irq_enable,
  reg_cmd_base, reg_cmd_size, reg_cmd_head, reg_cmd_tail, reg_fence_addr, reg_fence_value,
  reg_vertex_base, reg_vertex_count, reg_vertex_stride, reg_shader_pc, reg_shader_addr,
  reg_shader_data, reg_shader_ctrl, reg_instr_mem_size, status_error, status_halted, max_queues,
}
use package.amdhardware_kernel.Ring.{Ring, queue_reg}
use package.amdhardware_kernel.Shader.{ShaderSlot, ShaderMgr}
use package.amdhardware_kernel.Validate.{hdr_opcode, hdr_size}
use package.amdhardware_kernel.Coredump.Records.{
  QueueDump, RegisterDump, SlotDump, ShaderDump, CmdringDump, ErrorDump, Remark, error_detected,
  halted_hung, queue_full, cmdring_dump_size,
}

abbrev pub status_cmd_full : ℕ
status_cmd_full = 64

-- The slots from `i` on: those that are loaded.
pub active_from : ℕ → ℕ → List ShaderSlot → ℕ
active_from acc i [] = acc
active_from acc i (s ∷ ss) = active_from (if s.loaded then bit_or acc (2 ^ i) else acc) (i + 1) ss

pub slot_dumps : ℕ → List ShaderSlot → List SlotDump
slot_dumps i [] = []
slot_dumps i (s ∷ ss) =
    (if s.loaded
      then record { slot = i; kind = s.kind; size = s.size; loaded = 1 }
      else record { slot = 0; kind = 0; size = 0; loaded = 0 })
    ∷ slot_dumps (i + 1) ss

pub pc_dumps : ℕ → List ShaderSlot → List ℕ
pc_dumps i [] = []
pc_dumps i (s ∷ ss) = (if s.loaded then i * 256 else 0) ∷ pc_dumps (i + 1) ss

-- `mgpu_coredump_capture_shaders` into a zeroed state.
unfoldable pub capture_shaders : Option ShaderMgr → ShaderDump
unfolding active_from slot_dumps pc_dumps
capture_shaders none = record {
  active_slots = 0;
  pc_values = replicate 16 0;
  slots = replicate 16 (record { slot = 0; kind = 0; size = 0; loaded = 0 });
}
capture_shaders (some mgr) = record {
  active_slots = active_from 0 0 mgr;
  pc_values = pc_dumps 0 mgr;
  slots = slot_dumps 0 mgr;
}

-- The loop that counts the commands of a ring's dwords, `skip` dwords before the next header.
unfoldable pub count_commands : ℕ → List ℕ → ℕ
count_commands skip [] = 0
count_commands (suc skip) (c ∷ cs) = count_commands skip cs
count_commands zero (c ∷ cs) =
    let rest = count_commands (hdr_size c - 1) cs in
    if hdr_opcode c == 0 || hdr_size c == 0 then 0 else rest + 1

-- `min(ring->size, 4096U)`
abbrev pub dumped_bytes : Ring → ℕ
dumped_bytes ring = if leb ring.size 4096 then ring.size else 4096

module _ (hw : Hw) where
  -- The registers of `left` queues from `i` on.
  unfoldable pub queue_dumps : ℕ → ℕ → Io (List QueueDump)
  queue_dumps zero i = pure []
  queue_dumps (suc left) i = do
    cmd_base ← read hw (queue_reg reg_cmd_base i)
    cmd_size ← read hw (queue_reg reg_cmd_size i)
    cmd_head ← read hw (queue_reg reg_cmd_head i)
    cmd_tail ← read hw (queue_reg reg_cmd_tail i)
    rest ← queue_dumps left (i + 1)
    pure (
        record {
          cmd_base = cmd_base;
          cmd_size = cmd_size;
          cmd_head = cmd_head;
          cmd_tail = cmd_tail;
        }
        ∷ rest)

  -- `mgpu_coredump_capture_registers`; the queues that are not read stay 0.
  unfoldable pub capture_registers : ℕ → Io RegisterDump
  unfolding queue_dumps
  capture_registers num_queues = do
    let n = if leb num_queues max_queues then num_queues else max_queues
    version ← read hw reg_version
    caps ← read hw reg_caps
    control ← read hw reg_control
    status ← read hw reg_status
    scratch ← read hw reg_scratch
    irq_status ← read hw reg_irq_status
    irq_enable ← read hw reg_irq_enable
    queues ← queue_dumps n 0
    fence_addr ← read hw reg_fence_addr
    fence_value ← read hw reg_fence_value
    vertex_base ← read hw reg_vertex_base
    vertex_count ← read hw reg_vertex_count
    vertex_stride ← read hw reg_vertex_stride
    shader_pc ← read hw reg_shader_pc
    shader_addr ← read hw reg_shader_addr
    shader_data ← read hw reg_shader_data
    shader_ctrl ← read hw reg_shader_ctrl
    pure (record {
      version = version;
      caps = caps;
      control = control;
      status = status;
      scratch = scratch;
      irq_status = irq_status;
      irq_enable = irq_enable;
      command_queue =
          queues
          ++ replicate (max_queues - n)
              (record { cmd_base = 0; cmd_size = 0; cmd_head = 0; cmd_tail = 0 });
      fence_addr = fence_addr;
      fence_value = fence_value;
      vertex_base = vertex_base;
      vertex_count = vertex_count;
      vertex_stride = vertex_stride;
      shader_pc = shader_pc;
      shader_addr = shader_addr;
      shader_data = shader_data;
      shader_ctrl = shader_ctrl;
    })

  -- `mgpu_coredump_capture_cmdring` of the queue 0 into memory: the size, and what is written.
  unfoldable pub copy_cmdring : Option Ring → Io (ℕ × Option CmdringDump)
  unfolding count_commands
  copy_cmdring none = pure (0, none)
  copy_cmdring (some ring) = do
    let cmds = take (dumped_bytes ring / 4) ring.vaddr
    head ← read hw reg_cmd_head
    tail ← read hw reg_cmd_tail
    pure (
      cmdring_dump_size + dumped_bytes ring,
      some (record {
        queue_id = 0;
        size = ring.size;
        head = head;
        tail = tail;
        num_commands = count_commands 0 cmds;
        data_dwords = cmds;
      }),
    )

  -- The size that the same function answers, given whether its buffer is not NULL. The number of the
  -- queue is written to the buffer before any test of it, so that NULL is a fault: `none`.
  unfoldable pub capture_cmdring : Option Ring → Bool → Io (Option ℕ)
  unfolding copy_cmdring
  capture_cmdring none buffer = pure (some 0)
  capture_cmdring (some ring) false = pure none
  capture_cmdring (some ring) true = do out ← copy_cmdring (some ring); pure (some out.0)

  -- The loop of `mgpu_coredump_capture_instrmem` for `left` dwords from `i` on.
  unfoldable pub read_instrs : ℕ → ℕ → Io (List ℕ)
  read_instrs zero i = pure []
  read_instrs (suc left) i = do
    write reg_shader_addr i
    x ← read hw reg_shader_data
    rest ← read_instrs left (i + 1)
    pure (x ∷ rest)

  unfoldable pub capture_instrmem : Io (List ℕ)
  unfolding read_instrs
  capture_instrmem = read_instrs (reg_instr_mem_size / 4) 0

  -- The last fence and the head of the ring, where the GPU hangs.
  hang_values : Bool → Io (ℕ × ℕ)
  hang_values false = pure (0, 0)
  hang_values true = do
    last_fence ← read hw reg_fence_value
    last_cmd_head ← read hw reg_cmd_head
    pure (last_fence, last_cmd_head)

  error_remarks : ℕ → List Remark
  error_remarks status =
      (if flag status status_error then error_detected status ∷ [] else [])
      ++ (if flag status status_halted then halted_hung ∷ [] else [])
      ++ (if flag status status_cmd_full then queue_full ∷ [] else [])

  -- `mgpu_coredump_capture_error`
  unfoldable pub capture_error : ℕ → Io ErrorDump
  unfolding error_remarks hang_values
  capture_error now = do
    status ← read hw reg_status
    hang ← hang_values (flag status status_halted)
    pure (record {
      error_code = if flag status status_error then 1 else 0;
      hang_detected = flag status status_halted;
      last_fence = hang.0;
      last_cmd_head = hang.1;
      timestamp = now;
      description = error_remarks status;
    })
