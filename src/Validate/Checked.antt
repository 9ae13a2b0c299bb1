-- ===== src/Validate/Checked.antt =====
-- `mgpu_submit_validated` of kernel/drivers/gpu/mgpu/mgpu_uapi.c, and what a second validation finds.
use package.amdhardware_kernel.Common.{
  ℕ, ◌+◌, ◌%◌, ◌≤◌, ◌<◌, ◌≡◌, refl, ◌≢◌, true, ◌||◌, Option, none, some, List, [], ◌∷◌, arith, ltb,
  ◌==◌, if◌then◌else◌, bit_and_mask, u64, flag,
}
use package.amdhardware_kernel.Bus.{
  Trace, Hw, Io, ◌>>=◌, pure, Errno, enomem, efault, einval, Status, ok, err,
}
use package.amdhardware_kernel.Bus.Regs.{cmd_nop, cmd_reg_write, ring_size_max}
use package.amdhardware_kernel.Ring.{Ring}
use package.amdhardware_kernel.Ring.Submit.{Submit, Kernel, Outcome, submit_commands}
use package.amdhardware_kernel.Validate.{
  row, good, bad, no_check, hdr_opcode, hdr_size, with_nop, look_up, run_check, on_found,
  validate_from, validate_commands,
}

-- The answers that `mgpu_submit_validated` gets before it submits: `kmalloc`, with the address of the
-- buffer, and the dwords of `copy_from_user`.
pub record Copy : Type 0 where
  pub kmalloc : Option ℕ
  pub user : Option (List ℕ)

-- `ctx->submit_count`, where there is a context.
abbrev pub counted : Status → Option ℕ → Option ℕ
counted ok (some n) = some (u64 (n + 1))
counted s count = count

module _ (hw : Hw) (space : Ring → Io ℕ) where
  submit_valid : Kernel → Submit → ℕ → Option ℕ → Option Ring → Status → Io (Outcome × Option ℕ)
  submit_valid kern args cmd_copy count cmd_ring (err e) = pure ((err e, cmd_ring), count)
  submit_valid kern args cmd_copy count cmd_ring ok = do
    out ← submit_commands hw space kern (record args { commands = cmd_copy }) cmd_ring
    pure (out, counted out.0 count)

  submit_copy :
      Kernel
      → Submit
      → Option ℕ
      → Option (List ℕ)
      → Option ℕ
      → Option Ring
      → Io (Outcome × Option ℕ)
  unfolding submit_valid
  submit_copy kern args none user count cmd_ring = pure ((err enomem, cmd_ring), count)
  submit_copy kern args (some cmd_copy) none count cmd_ring = pure ((err efault, cmd_ring), count)
  submit_copy kern args (some cmd_copy) (some cmds) count cmd_ring = do
    checked ← validate_commands hw cmds args.cmd_size
    submit_valid kern args cmd_copy count cmd_ring checked.0

  pub submit_validated : Kernel → Submit → Copy → Option ℕ → Option Ring → Io (Outcome × Option ℕ)
  unfolding submit_copy
  submit_validated kern args copy count cmd_ring =
      if args.commands == 0 || args.cmd_size == 0
      then pure ((err einval, cmd_ring), count)
      else if ltb ring_size_max args.cmd_size
      then pure ((err einval, cmd_ring), count)
      else if flag args.cmd_size 3
      then pure ((err einval, cmd_ring), count)
      else submit_copy kern args copy.kmalloc copy.user count cmd_ring

-- A buffer that the validation refuses is not submitted: the call returns the validation's error, and
-- ring, count and bus are as the validation left them.
pub submit_validated_refused :
    (hw : Hw) (space : Ring → Io ℕ) (kern : Kernel) (args : Submit) (copy : Copy) (cmds : List ℕ)
    (count : Option ℕ) (cmd_ring : Option Ring) (h : Trace) (addr : ℕ) (e : Errno)
    → copy.kmalloc ≡ some addr
    → copy.user ≡ some cmds
    → args.commands ≢ 0
    → 0 < args.cmd_size
    → args.cmd_size ≤ ring_size_max
    → args.cmd_size % 4 ≡ 0
    → (validate_commands hw cmds args.cmd_size h).0.0 ≡ err e
    → submit_validated hw space kern args copy count cmd_ring h
      ≡ (((err e, cmd_ring), count), (validate_commands hw cmds args.cmd_size h).1)
unfolding submit_validated
submit_validated_refused hw space kern args copy cmds count cmd_ring h addr e k u c s m a v =
    ground (arith, bit_and_mask 2 args.cmd_size)

finds_reg_write :
    (header a b : ℕ)
    → hdr_opcode header ≡ cmd_reg_write
    → hdr_size header ≡ 3
    → look_up (header ∷ a ∷ b ∷ []) ≡ good (row cmd_reg_write 3 3 true no_check)
unfolding look_up
finds_reg_write header a b op size = ground arith

refuses_long_nop :
    (header a b : ℕ)
    → hdr_opcode header ≡ cmd_nop
    → hdr_size header ≡ 3
    → look_up (header ∷ a ∷ b ∷ []) ≡ bad
unfolding look_up
refuses_long_nop header a b op size = ground arith

reg_write_passes :
    (hw : Hw) (header a b : ℕ) (h : Trace)
    → hdr_opcode header ≡ cmd_reg_write
    → hdr_size header ≡ 3
    → (validate_from hw 3 (header ∷ a ∷ b ∷ []) h).0 ≡ (ok, with_nop header ∷ a ∷ b ∷ [])
unfolding validate_from on_found run_check
reg_write_passes hw header a b h op size =
    rw (finds_reg_write header a b op size, on_found) (rw size)

-- A register write, which the pass turns into a NOP of three dwords, is not accepted a second time: the
-- buffer that a successful validation leaves is itself refused.
pub validate_from_not_idempotent :
    (hw : Hw) (header a b : ℕ) (h h' : Trace)
    → hdr_opcode header ≡ cmd_reg_write
    → hdr_size header ≡ 3
    → let out = (validate_from hw 3 (header ∷ a ∷ b ∷ []) h).0 in
      (out ≡ (ok, with_nop header ∷ a ∷ b ∷ [])) × ((validate_from hw 3 out.1 h').0.0 ≡ err einval)
unfolding validate_from on_found
validate_from_not_idempotent hw header a b h h' op size = (
  reg_write_passes hw header a b h op size,
  rw (reg_write_passes hw header a b h op size)
      (rw (refuses_long_nop (with_nop header) a b (omega arith) (omega arith), on_found) refl),
)
