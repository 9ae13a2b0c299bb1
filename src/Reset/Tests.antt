-- ===== src/Reset/Tests.antt =====
-- Resets of a device that recovers and of one that hangs.
use package.amdhardware_kernel.Bus.{
  rd, schedule_reset, reset_wait, wr, wake, Trace, Hw, ok, err, etimedout,
}
use package.amdhardware_kernel.Common.{
  true, refl, ℕ, ◌+◌, ◌≡◌, false, none, [], ◌∷◌, ◌==◌, if◌then◌else◌, take, u32,
}
use package.amdhardware_kernel.Reset.{
  reset_on_error, reset_engine, ResetWork, WorkEnv, reset_init, reset_work_handler, work_stop,
  reset_wait_answer, reset_get_stats,
}
use package.amdhardware_kernel.Schedule.{reset_schedule}
use package.amdhardware_kernel.Bus.Regs.{reg_status, status_idle, status_busy, status_error}
use package.amdhardware_kernel.Ring.Power.{cmdq_resume}
use package.amdhardware_kernel.Reset.Work.{reset_succeeds, reset_work_handler_lem}

abbrev last_write : ℕ → Trace → ℕ
last_write r [] = 0
last_write r (wr r' v ∷ h) = let rest = last_write r h in if r' == r then v else rest
last_write r (_ ∷ h) = last_write r h

-- A device that is idle and whose other registers hold what was written.
abbrev idle_device : Hw
idle_device h r = if r == reg_status then status_idle else last_write r h

abbrev hung : Hw
hung h r = status_busy

abbrev env : WorkEnv
env = record {
  stop_polls = 2;
  idle_polls = 3;
  debug = false;
  profiling = false;
  registered = ok;
  now = 77;
}

abbrev start : ResetWork
start = record {
  reset = reset_init 5;
  cmd_ring = none;
  caps = record { version = 1; caps = 0; num_queues = 1; num_engines = 1 };
  irq_status = 4;
}

reset_work_handler_lem_example :
    ((reset_work_handler idle_device env start []).0.reset.in_reset ≡ false)
    × ((reset_work_handler idle_device env start []).0.reset.reset_count ≡ (
        if reset_succeeds idle_device env none []
        then u32 (start.reset.reset_count + 1)
        else start.reset.reset_count))
    × ((reset_work_handler idle_device env start []).0.cmd_ring ≡ (
        if reset_succeeds idle_device env none []
        then (cmdq_resume (work_stop idle_device env none []).0 []).0
        else (work_stop idle_device env none []).0))
    × (take 1 (reset_work_handler idle_device env start []).1 ≡ wake reset_wait ∷ [])
reset_work_handler_lem_example = reset_work_handler_lem idle_device env start []

abbrev failed : Hw
failed h r = status_error

on_error_schedules : reset_on_error failed false [] ≡ (tt, schedule_reset ∷ rd reg_status ∷ [])
unfolding reset_on_error reset_schedule
on_error_schedules = refl

engine_in_reset : reset_engine true 3 [] ≡ (ok, [])
unfolding reset_engine reset_schedule
engine_in_reset = refl

starts_idle : (reset_init 5).in_reset ≡ false
unfolding reset_init
starts_idle = refl

wait_times_out : reset_wait_answer none ≡ err etimedout
unfolding reset_wait_answer
wait_times_out = refl

no_resets : (reset_get_stats (reset_init 5)).reset_count ≡ 0
unfolding reset_get_stats reset_init
no_resets = refl
