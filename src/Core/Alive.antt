-- ===== src/Core/Alive.antt =====
-- The scratch test of `mgpu_core_test_alive`.
use package.amdhardware_kernel.Common.{◌≡◌, ◌↔◌, ◌∷◌, arith}
use package.amdhardware_kernel.Bus.{rd, wr, Trace, Hw, ok}
use package.amdhardware_kernel.Bus.Regs.{reg_scratch}
use package.amdhardware_kernel.Core.{core_test_alive}

module _ (hw : Hw) where
  -- `mgpu_core_test_alive` returns 0 exactly when the scratch register reads back 0xDEADBEEF after it
  -- was written, and then, written again, the complement of that.
  pub core_test_alive-ok :
      (h : Trace)
      → ((core_test_alive hw h).0 ≡ ok) ↔ (
          (hw (wr reg_scratch 0xDEADBEEF ∷ h) reg_scratch ≡ 0xDEADBEEF)
          × (hw
                (wr reg_scratch 0x21524110 ∷ rd reg_scratch ∷ wr reg_scratch 0xDEADBEEF ∷ h)
                reg_scratch
              ≡ 0x21524110))
  unfolding core_test_alive
  core_test_alive-ok h = (λ e. ground arith, λ e. ground arith)
