-- ===== src/Coredump.antt =====
-- kernel/drivers/gpu/mgpu/mgpu_coredump.c: the capture of the device's state and the layout of a dump.
-- A dump is the chunks that are written to its memory, each with its place and its length in bytes.
pub mod Records
pub mod Capture
pub mod Layout
pub mod Memory
mod Tests
use package.amdhardware_kernel.Common.{
  ℕ, ◌+◌, ◌*◌, Bool, true, false, Option, none, some, List, [], ◌∷◌, ◌++◌, leb, if◌then◌else◌,
}
use package.amdhardware_kernel.Bus.{Hw, Io, ◌>>=◌, pure}
use package.amdhardware_kernel.Bus.Regs.{reg_instr_mem_size}
use package.amdhardware_kernel.Ring.{Ring}
use package.amdhardware_kernel.Shader.{ShaderMgr}
use Capture.{
  capture_registers, capture_shaders, capture_error, capture_cmdring, copy_cmdring,
  capture_instrmem,
}
use Records.{
  RegisterDump, ShaderDump, ErrorDump, CmdringDump, register_dump_size, shader_dump_size,
  error_dump_size,
}

-- `enum mgpu_coredump_section`, the sections that are written, and the number of all.
pub data SectionType : Type 0 where
  dump_registers dump_command_ring dump_shader_state dump_instr_mem dump_error_info : SectionType

abbrev pub dump_end : ℕ
dump_end = 9

-- `struct mgpu_coredump_header`, without the strings of the kernel's and the driver's version.
pub record CoredumpHeader : Type 0 where
  pub timestamp : ℕ
  pub gpu_version : ℕ
  pub gpu_caps : ℕ
  pub error_status : ℕ
  pub error_code : ℕ
  pub reset_count : ℕ
  pub total_size : ℕ

-- `struct mgpu_coredump_section_header`, without the name and the flags, which nothing sets.
pub record Section : Type 0 where
  pub kind : SectionType
  pub offset : ℕ
  pub size : ℕ

-- The sizes of the two packed structures.
abbrev pub header_size : ℕ
header_size = 140

abbrev pub section_header_size : ℕ
section_header_size = 48

pub data Payload : Type 0 where
  header : CoredumpHeader → Payload
  registers : RegisterDump → Payload
  cmdring : CmdringDump → Payload
  shaders : ShaderDump → Payload
  instrs : List ℕ → Payload
  error_info : ErrorDump → Payload

pub record Chunk : Type 0 where
  pub place : ℕ
  pub len : ℕ
  pub payload : Payload

-- `data`, `size` and `offset` of `struct mgpu_coredump_state`, with the section headers filled in.
pub record Dump : Type 0 where
  pub size : ℕ
  pub offset : ℕ
  pub chunks : List Chunk
  pub sections : List Section

unfoldable pub coredump_append : Payload → ℕ → Dump → Dump
coredump_append p len d =
    if leb (d.offset + len) d.size
    then record d {
      offset = d.offset + len;
      chunks = d.chunks ++ record { place = d.offset; len = len; payload = p } ∷ [];
    }
    else d

-- A section that a capture writes at the offset itself, with no test of the size.
unfoldable pub section_written : List Chunk → ℕ → Dump → Dump
section_written new len d = record d { offset = d.offset + len; chunks = d.chunks ++ new }

abbrev pub add_section : SectionType → ℕ → Dump → Dump
add_section kind size d = record d {
  sections = d.sections ++ record { kind = kind; offset = d.offset; size = size } ∷ [];
}

abbrev pub cmdring_chunk : ℕ → ℕ → Option CmdringDump → List Chunk
cmdring_chunk place len none = []
cmdring_chunk place len (some c) = record { place = place; len = len; payload = cmdring c } ∷ []

-- The answers of the clock and of `atomic_read`, `mdev->num_queues`, and whether `kvmalloc` succeeds.
pub record DumpEnv : Type 0 where
  pub now : ℕ
  pub reset_count : ℕ
  pub num_queues : ℕ
  pub kvmalloc : Bool

abbrev pub header_of : DumpEnv → RegisterDump → ErrorDump → ℕ → CoredumpHeader
header_of env regs error total = record {
  timestamp = env.now;
  gpu_version = regs.version;
  gpu_caps = regs.caps;
  error_status = regs.status;
  error_code = error.error_code;
  reset_count = env.reset_count;
  total_size = total;
}

-- The size without the command ring.
abbrev pub fixed_size : ℕ
fixed_size =
    header_size
    + section_header_size * dump_end
    + register_dump_size
    + shader_dump_size
    + reg_instr_mem_size
    + error_dump_size

module _ (hw : Hw) (env : DumpEnv) where
  -- The header, the reserved section headers and the registers.
  unfoldable pub dump_start : RegisterDump → ErrorDump → ℕ → Dump
  unfolding coredump_append
  dump_start regs error total =
      let empty : Dump = record { size = total; offset = 0; chunks = []; sections = [] } in
      let d = coredump_append (header (header_of env regs error total)) header_size empty in
      coredump_append (registers regs) register_dump_size (
        add_section dump_registers register_dump_size
          (record d { offset = d.offset + section_header_size * dump_end }))

  -- Given what the capture of the ring answers for the memory at the offset.
  unfoldable pub dump_middle : ShaderDump → ℕ × Option CmdringDump → Dump → Dump
  unfolding coredump_append section_written
  dump_middle sh (len, c) d =
      let d₁ =
        section_written (cmdring_chunk d.offset len c) len (add_section dump_command_ring len d) in
      coredump_append (shaders sh) shader_dump_size
        (add_section dump_shader_state shader_dump_size d₁)

  unfoldable pub dump_rest : ErrorDump → List ℕ → Dump → Dump
  unfolding coredump_append section_written
  dump_rest error mem d =
      let chunk : Chunk = record {
        place = d.offset;
        len = reg_instr_mem_size;
        payload = instrs mem;
      } in
      coredump_append (error_info error) error_dump_size (
        add_section dump_error_info error_dump_size (
          section_written (chunk ∷ []) reg_instr_mem_size
            (add_section dump_instr_mem reg_instr_mem_size d)))

  -- From the allocation on: the ring and the instruction memory are captured into the dump.
  unfoldable pub write_dump : RegisterDump → ShaderDump → ErrorDump → Option Ring → ℕ → Io Dump
  unfolding dump_start dump_middle dump_rest
  write_dump regs sh error cmd_ring total = do
    ring ← copy_cmdring hw cmd_ring
    mem ← capture_instrmem hw
    pure (dump_rest error mem (dump_middle sh ring (dump_start regs error total)))

  unfoldable pub dump_sized :
      RegisterDump → ShaderDump → ErrorDump → Option Ring → Option ℕ → Io (Option (Option Dump))
  unfolding write_dump
  dump_sized regs sh error cmd_ring none = pure none
  dump_sized regs sh error cmd_ring (some len) =
      if env.kvmalloc
      then (do d ← write_dump regs sh error cmd_ring (fixed_size + len); pure (some (some d)))
      else pure (some none)

  -- `mgpu_coredump_create`; `none` is a fault, and `some none` a NULL pointer. `mgpu_coredump_capture`
  -- hands the dump to the kernel.
  unfoldable pub coredump_create : Option ShaderMgr → Option Ring → Io (Option (Option Dump))
  unfolding dump_sized
  coredump_create mgr cmd_ring = do
    regs ← capture_registers hw env.num_queues
    error ← capture_error hw env.now
    len ← capture_cmdring hw cmd_ring false
    dump_sized regs (capture_shaders mgr) error cmd_ring len
