-- ===== src/Core.antt =====
-- kernel/drivers/gpu/mgpu/mgpu_core.c: reset, liveness test, idle tests and waits, start and stop.
pub mod Polling
pub mod Alive
pub mod Waiting
pub mod Init
mod Tests
use package.amdhardware_kernel.Common.{
  ℕ, zero, suc, ◌∷◌, Bool, true, not, ◌&&◌, Option, none, some, ◌==◌, if◌then◌else◌, flag, all_ones,
  not32,
}
use package.amdhardware_kernel.Bus.{
  Event, rd, sleep, nap, Hw, Io, ◌>>=◌, ◌>>◌, pure, read, emit, write, eio, etimedout, Status, ok,
  err, unit_done,
}
use package.amdhardware_kernel.Schedule.{reset_schedule}
use package.amdhardware_kernel.Bus.Regs.{
  reg_control, reg_status, reg_scratch, reg_irq_ack, ctrl_reset, status_idle, status_busy,
  status_error,
}

-- The fields of `struct mgpu_device` that `mgpu_core_init` sets.
pub record Caps : Type 0 where
  pub version : ℕ
  pub caps : ℕ
  pub num_queues : ℕ
  pub num_engines : ℕ

-- `timeout <= 0`
abbrev pub timed_out : Option ℕ → Bool
timed_out none = true
timed_out (some t) = t == 0

module _ (hw : Hw) where
  -- `while (timeout--) { status = read(STATUS); if (ended(status)) break; delay; }` started at
  -- `timeout` = the last argument. The result is `timeout` after the loop, `none` for -1. The loops of
  -- `mgpu_pipeline.c` test `timeout-- > 0`, which is the same here.
  unfoldable pub poll_until : (ℕ → Bool) → Event → ℕ → Io (Option ℕ)
  poll_until ended delay zero h = (none, h)
  poll_until ended delay (suc t) h =
      let rest = poll_until ended delay t (delay ∷ rd reg_status ∷ h) in
      if ended (hw h reg_status) then (some t, rd reg_status ∷ h) else rest

  abbrev pub poll_idle : Event → ℕ → Io (Option ℕ)
  poll_idle = poll_until (λ status. flag status status_idle)

  pub core_reset : Io Status
  core_reset = do
    write reg_control ctrl_reset
    emit (sleep 10)
    write reg_control 0
    timeout ← poll_idle (sleep 1) 100
    if timed_out timeout then pure (err etimedout) else (write reg_irq_ack all_ones >> pure ok)

  abbrev test_val : ℕ
  test_val = 0xDEADBEEF

  unfoldable pub core_test_alive : Io Status
  core_test_alive = do
    write reg_scratch test_val
    read_val ← read hw reg_scratch
    if not (read_val == test_val) then pure (err eio) else do
      write reg_scratch (not32 test_val)
      read_val' ← read hw reg_scratch
      pure (if not (read_val' == not32 test_val) then err eio else ok)

  unfoldable pub core_is_idle : Io Bool
  core_is_idle = do
    status ← read hw reg_status
    pure (flag status status_idle && not (flag status status_busy))

  -- `polls` is the number of rounds that start before `jiffies` reaches the deadline.
  unfoldable pub core_wait_idle : ℕ → Io Status
  unfolding core_is_idle
  core_wait_idle zero h = (err etimedout, h)
  core_wait_idle (suc polls) h =
      let (idle, h₁) = core_is_idle h in
      let (status, h₂) = read hw reg_status h₁ in
      let rest = core_wait_idle polls (nap 100 200 ∷ h₂) in
      if idle then (ok, h₁) else if flag status status_error then (err eio, h₂) else rest

  pub core_handle_error : Bool → Io (Unit {0})
  core_handle_error in_reset = do
    status ← read hw reg_status
    if flag status status_error then reset_schedule in_reset else unit_done
