-- ===== src/Core/Tests.antt =====
-- The reset, the scratch test and the idle wait on concrete devices.
use package.amdhardware_kernel.Core.{core_handle_error, core_reset, core_test_alive, poll_until}
use package.amdhardware_kernel.Schedule.{reset_schedule}
use package.amdhardware_kernel.Bus.{schedule_reset, rd, wr, sleep, Trace, Hw, etimedout, ok, err}
use package.amdhardware_kernel.Bus.Regs.{
  status_error, reg_control, reg_status, reg_irq_ack, ctrl_reset, status_idle, status_busy,
}
use package.amdhardware_kernel.Common.{ℕ, ◌≡◌, refl, false, [], ◌∷◌, ◌==◌, if◌then◌else◌, all_ones}

abbrev last_write : ℕ → Trace → ℕ
last_write r [] = 0
last_write r (wr r' v ∷ h) = let rest = last_write r h in if r' == r then v else rest
last_write r (_ ∷ h) = last_write r h

-- A device that is idle from the first poll, and whose registers hold what was written.
abbrev ready : Hw
ready h r = if r == reg_status then status_idle else last_write r h

-- It is busy until the driver has slept after a poll.
abbrev slow : Hw
slow (sleep n ∷ rd r' ∷ h) r = status_idle
slow _ r = status_busy

abbrev hung : Hw
hung h r = status_busy

core_reset-ready : (core_reset ready []).0 ≡ ok
unfolding core_reset poll_until
core_reset-ready = refl

core_reset-slow : core_reset slow [] ≡ (
  ok,
  wr reg_irq_ack all_ones
      ∷ rd reg_status
      ∷ sleep 1
      ∷ rd reg_status
      ∷ wr reg_control 0
      ∷ sleep 10
      ∷ wr reg_control ctrl_reset
      ∷ [],
)
unfolding core_reset poll_until
core_reset-slow = refl

core_reset-hung : (core_reset hung []).0 ≡ err etimedout
unfolding core_reset poll_until
core_reset-hung = refl

core_test_alive-ready : (core_test_alive ready []).0 ≡ ok
unfolding core_test_alive
core_test_alive-ready = refl

abbrev failed : Hw
failed h r = status_error

handle_error_schedules :
    core_handle_error failed false [] ≡ (tt, schedule_reset ∷ rd reg_status ∷ [])
unfolding core_handle_error reset_schedule
handle_error_schedules = refl
