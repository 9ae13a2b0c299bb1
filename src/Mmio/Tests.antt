-- ===== src/Mmio/Tests.antt =====
-- The access helpers on concrete devices.
use package.amdhardware_kernel.Common.{◌≡◌, refl, false, [], ◌∷◌, ◌==◌, if◌then◌else◌}
use package.amdhardware_kernel.Bus.{rd, wr, Hw}
use package.amdhardware_kernel.Bus.Regs.{reg_status, reg_shader_addr, reg_shader_data}
use package.amdhardware_kernel.Mmio.{
  write_instruction, read_instruction, make_version, has_error, get_queue_depth,
}

-- The command queue is full: bit 6 of the status.
abbrev full : Hw
full h r = if r == reg_status then 64 else 0

version : make_version 1 2 3 4 ≡ 0x01020304
unfolding make_version
version = refl

-- The bit of a full queue is one of the bits of the depth.
depth_of_full : (get_queue_depth full []).0 ≡ 4
unfolding get_queue_depth
depth_of_full = refl

no_error : (has_error full []).0 ≡ false
unfolding has_error
no_error = refl

stored : (write_instruction 2 3 7 []).1 ≡ wr reg_shader_data 7 ∷ wr reg_shader_addr 515 ∷ []
unfolding write_instruction
stored = refl

loaded : (read_instruction full 2 3 []).1 ≡ rd reg_shader_data ∷ wr reg_shader_addr 515 ∷ []
unfolding read_instruction
loaded = refl
