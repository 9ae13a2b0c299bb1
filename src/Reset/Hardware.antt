-- ===== src/Reset/Hardware.antt =====
-- What `mgpu_reset_hw` waits for and tests, and when a reset is needed.
use package.amdhardware_kernel.Common.{ℕ, ◌≡◌, ◌↔◌, ◌&&◌, ◌||◌, ◌∷◌, arith, ◌==◌, all_ones, flag}
use package.amdhardware_kernel.Bus.{rd, wr, sleep, Trace, Hw, ok}
use package.amdhardware_kernel.Bus.Regs.{
  reg_control, reg_status, reg_irq_ack, reg_fence_value, ctrl_reset, status_busy, status_error,
  status_halted,
}
use package.amdhardware_kernel.Core.{poll_idle, core_test_alive}
use package.amdhardware_kernel.Core.Polling.{IdleBefore, idle_of_poll, poll_of_idle}
use package.amdhardware_kernel.Reset.{reset_hw, reset_answer, clear_errors, reset_needed}

-- The bus when the reset line is released.
abbrev pub let_go : Trace → Trace
let_go h =
    wr reg_control 0
    ∷ sleep 100
    ∷ wr reg_control ctrl_reset
    ∷ sleep 10
    ∷ wr reg_control 0
    ∷ rd reg_control
    ∷ h

-- The bus when the wait is over and the interrupts are acknowledged.
abbrev pub acknowledged : Hw → Trace → Trace
acknowledged hw h = wr reg_irq_ack all_ones ∷ (poll_idle hw (sleep 1) 1000 (let_go h)).1

-- The hardware reset returns 0 exactly when one of the first 999 polls of the status reads the idle
-- bit and the GPU then passes the scratch test; whether an error stays set has no influence.
pub reset_hw-ok :
    (hw : Hw) (h : Trace)
    → ((reset_hw hw h).0 ≡ ok) ↔ (
        IdleBefore hw (sleep 1) (let_go h) 1000 × ((core_test_alive hw (acknowledged hw h)).0 ≡ ok))
unfolding reset_hw reset_answer clear_errors
reset_hw-ok hw h = (
  (λ e. (idle_of_poll hw (sleep 1) 1000 (let_go h) (ground arith), ground arith)),
  λ i. ground (arith, poll_of_idle hw (sleep 1) 1000 i.0.0 (let_go h)),
)

-- A reset is needed exactly when the status shows an error or a halt, or shows busy while the fence
-- value is the one that was read in the last such look.
pub reset_needed_lem :
    (hw : Hw) (last_fence : ℕ) (h : Trace)
    → let status = hw h reg_status in
      (reset_needed hw last_fence h).0.0 ≡ (
        flag status status_error
        || (flag status status_halted
            || (flag status status_busy && hw (rd reg_status ∷ h) reg_fence_value == last_fence)))
unfolding reset_needed
reset_needed_lem hw last_fence h = ground arith
