-- ===== src/Mmio.antt =====
-- The access helpers of kernel/drivers/gpu/mgpu/mgpu_mmio.h. The registers are those of mgpu_regs.h.
mod Tests
use package.amdhardware_kernel.Common.{
  ℕ, ◌+◌, ◌*◌, ◌/◌, ◌^◌, ◌<◌, ◌≡◌, refl, Bool, not, ◌&&◌, bit_and, bit_or, arith, u32, flag,
}
use package.amdhardware_kernel.Bus.{Trace, Hw, Io, ◌>>=◌, ◌>>◌, pure, read, write}
use package.amdhardware_kernel.Bus.Regs.{
  reg_status, reg_shader_addr, reg_shader_data, reg_doorbell, status_idle, status_busy,
  status_error, status_halted,
}
use package.amdhardware_kernel.Core.{core_is_idle}

abbrev pub instr_slot_size : ℕ
instr_slot_size = 256

-- `mgpu_ring_doorbell`, with the sum of the base and the stride modulo 2^32.
pub ring_doorbell : ℕ → Io (Unit {0})
ring_doorbell queue_id = write (u32 (0x2000 + queue_id * 4)) 1

-- `(slot * MGPU_INSTR_SLOT_SIZE) + offset`
abbrev pub instr_addr : ℕ → ℕ → ℕ
instr_addr slot offset = u32 (slot * instr_slot_size + offset)

pub write_instruction : ℕ → ℕ → ℕ → Io (Unit {0})
write_instruction slot offset instr = do
  write reg_shader_addr (instr_addr slot offset)
  write reg_shader_data instr

-- `MGPU_MAKE_VERSION` of four bytes.
pub make_version : ℕ → ℕ → ℕ → ℕ → ℕ
make_version maj min patch build =
    bit_or
      (bit_or (bit_or (bit_and maj 0xFF * 2 ^ 24) (bit_and min 0xFF * 2 ^ 16))
        (bit_and patch 0xFF * 2 ^ 8))
      (bit_and build 0xFF)

module _ (hw : Hw) where
  pub read_instruction : ℕ → ℕ → Io ℕ
  read_instruction slot offset = do
    write reg_shader_addr (instr_addr slot offset)
    read hw reg_shader_data

  pub is_idle : Io Bool
  is_idle = do
    status ← read hw reg_status
    pure (flag status status_idle && not (flag status status_busy))

  pub has_error : Io Bool
  has_error = do status ← read hw reg_status; pure (flag status (bit_or status_error status_halted))

  pub get_queue_depth : Io ℕ
  get_queue_depth = do status ← read hw reg_status; pure (bit_and (status / 2 ^ 4) 0xF)

  -- The test of the header is that of `mgpu_core_is_idle`.
  is_idle-core : (h : Trace) → is_idle h ≡ core_is_idle hw h
  unfolding is_idle core_is_idle
  is_idle-core h = refl

-- For a queue of the driver the doorbell is that of `mgpu_regs.h`.
ring_doorbell-reg :
    (queue_id : ℕ) (h : Trace)
    → queue_id < 16
    → ring_doorbell queue_id h ≡ write (reg_doorbell queue_id) 1 h
unfolding ring_doorbell
ring_doorbell-reg queue_id h lt = ground arith
