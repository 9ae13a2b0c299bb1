-- ===== src/Coredump/Tests.antt =====
-- Dumps of concrete devices.
use package.amdhardware_kernel.Common.{
  Option, ℕ, ◌+◌, ◌*◌, ◌≡◌, refl, true, false, none, some, [], ◌∷◌, arith, ◌==◌, if◌then◌else◌,
  get_or,
}
use package.amdhardware_kernel.Bus.{Hw}
use package.amdhardware_kernel.Bus.Regs.{reg_shader_data, reg_status, status_halted}
use package.amdhardware_kernel.Shader.{shader_write_to_hw, empty_slot}
use package.amdhardware_kernel.Shader.Upload.{instr_addr, instr_mem}
use package.amdhardware_kernel.Coredump.Capture.{
  copy_cmdring, count_commands, capture_error, capture_registers, capture_shaders, capture_instrmem,
  capture_cmdring,
}
use package.amdhardware_kernel.Coredump.Records.{halted_hung}
use package.amdhardware_kernel.Coredump.{
  DumpEnv, Dump, write_dump, dump_sized, dump_start, dump_middle, dump_rest, coredump_append,
  section_written, fixed_size, coredump_create,
}
use package.amdhardware_kernel.Coredump.Memory.{AnswersMemory, capture_instrmem-upload}

-- A command of two dwords, one of one dword, and the end.
two_commands : count_commands 0 (0x201 ∷ 0 ∷ 0x102 ∷ 0 ∷ 0x101 ∷ []) ≡ 2
unfolding count_commands
two_commands = refl

abbrev remembering : Hw
remembering h r =
    if r == reg_shader_data
    then instr_mem h (instr_addr h)
    else if r == reg_status
    then status_halted
    else 0

remembering-AnswersMemory : AnswersMemory remembering
unfolding AnswersMemory
remembering-AnswersMemory h = refl

hung : (capture_error remembering 5 []).0.description ≡ halted_hung ∷ []
unfolding capture_error
hung = refl

second_slot :
    (capture_shaders (some (empty_slot ∷ record empty_slot { loaded = true } ∷ []))).active_slots
    ≡ 2
unfolding capture_shaders
second_slot = refl

abbrev env : DumpEnv
env = record { now = 5; reset_count = 0; num_queues = 1; kvmalloc = true }

halted_status : (capture_registers remembering 1 []).0.status ≡ status_halted
unfolding capture_registers
halted_status = refl

no_memory :
    (coredump_create remembering (record env { kvmalloc = false }) none none []).0 ≡ some none
unfolding coredump_create capture_cmdring
no_memory = refl

abbrev finished : Option (Option Dump) → ℕ
finished (some (some d)) = d.offset
finished other = 0

-- Without a ring the dump fills its memory.
filled : finished (coredump_create remembering env none none []).0 ≡ fixed_size
unfolding coredump_create capture_cmdring dump_sized write_dump dump_start dump_middle dump_rest
    copy_cmdring coredump_append section_written
filled = refl

capture_instrmem-upload_example :
    get_or
      (capture_instrmem remembering (shader_write_to_hw 2 (6 ∷ 7 ∷ []) 8 []).1).0
      (2 * 256 + 1)
      0
    ≡ get_or (6 ∷ 7 ∷ []) 1 0
capture_instrmem-upload_example =
    capture_instrmem-upload remembering remembering-AnswersMemory 2 8 1 (6 ∷ 7 ∷ []) []
      (omega arith) (omega arith) (omega arith) (omega arith)
