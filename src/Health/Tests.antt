-- ===== src/Health/Tests.antt =====
-- A device that works, one that always reports an error, and one that gets its work between two checks.
use package.amdhardware_kernel.Common.{
  ℕ, suc, ◌+◌, ◌≡◌, refl, true, false, ◌&&◌, none, some, [], ◌∷◌, arith, ◌==◌, leb, if◌then◌else◌,
  u64, length,
}
use package.amdhardware_kernel.Bus.{
  rd, wr, Trace, Hw, sleep, schedule_health, cancel_health, schedule_hang_check, cancel_hang_check,
  start_thread, stop_thread, enodev, ok, err,
}
use package.amdhardware_kernel.Bus.Regs.{reg_version, reg_status, reg_scratch}
use package.amdhardware_kernel.Schedule.{reset_schedule}
use package.amdhardware_kernel.Health.{
  Monitor, new_monitor, find_error, get_error_info, clear_error, health_check_heartbeat,
  health_check_errors, health_check_hang, health_reset, health_check, health_work_func,
  hang_check_work_func, monitor_round, health_check_now, health_init, health_fini,
}
use package.amdhardware_kernel.Health.Hang.{
  health_check_hang_lem, health_check_hang_after_idle, stuck_at,
}
use package.amdhardware_kernel.Health.Requests.{requests}
use package.amdhardware_kernel.Health.Resets.{checks, checks_failing}
use package.amdhardware_kernel.Health.Healthy.{Working}

abbrev last_write : Trace → ℕ
last_write [] = 0
last_write (e ∷ h) = elim e [ wr r v ↦ v | _ ↦ 0 ]

abbrev good : Hw
good h r = if r == reg_version then 5 else if r == reg_scratch then last_write h else 0

good-Working : Working good
good-Working = record {
  keeps = λ v h. refl;
  idle = λ h. refl;
  no_error = λ h. refl;
  not_halted = λ h. refl;
  version = λ h. ground arith;
  answers = λ h. ground arith;
}

abbrev monitor : Monitor
monitor = new_monitor 1000 2000

-- An error with the code 2, whenever the status is read.
abbrev failing : Hw
failing h r = 0x20004

-- Clocks that move with each access to the device.
abbrev clock : ℕ → Trace → ℕ
clock start h = start + length h

-- Nothing else happens between the checks, and no reset is under way.
abbrev run : ℕ → Monitor × Trace
run n = checks failing (clock 1500) (clock 2500) (λ i. false) (λ i h. h) 5000 n monitor []

checks_failing_example :
    ((run 10).0.consecutive_errors ≡ 10)
    × ((run 10).0.recovery_count ≡ u64 ((run 9).0.recovery_count + 1))
    × (requests (run 10).1 ≡ suc (requests (run 9).1))
checks_failing_example =
    checks_failing failing (clock 1500) (clock 2500) (λ i. false) (λ i h. h) 5000 9 monitor []
      (λ h. refl) (omega arith) (omega arith)

-- Idle at first, then busy; the head stays at 0.
abbrev late_worker : Hw
late_worker h r = if r == reg_status then (if leb 2 (length h) then 2 else 1) else 0

-- It is asked for the second time long after the deadline.
abbrev long_pause : Trace → ℕ
long_pause h = if leb 3 (length h) then 6001 + length h else 1500

abbrev later : Trace
later = rd reg_status ∷ rd reg_status ∷ []

health_check_hang_after_idle_example :
    (let m = (health_check_hang late_worker long_pause (clock 2500) 5000 monitor []).0.1 in
      (health_check_hang late_worker long_pause (clock 2500) 5000 m later).0.0)
    ≡ true
health_check_hang_after_idle_example =
    health_check_hang_after_idle late_worker long_pause (clock 2500) 5000 monitor [] later refl refl
      refl refl

health_check_hang_lem_example :
    (health_check_hang late_worker (clock 6000) (clock 2500) 5000 monitor later).0.0
    ≡ (true && stuck_at 5000 monitor 6004 6005 0 0)
health_check_hang_lem_example =
    health_check_hang_lem late_worker (clock 6000) (clock 2500) 5000 monitor later (omega arith)
      (omega arith) (omega arith) (omega arith)

unknown_code : (get_error_info 9).recoverable ≡ false
unfolding get_error_info find_error
unknown_code = refl

cleared :
    (health_check_errors failing (clock 1500) (clock 2500) monitor []).1
    ≡ wr reg_status 0x20000 ∷ rd reg_status ∷ []
unfolding health_check_errors clear_error get_error_info find_error
cleared = refl

works :
    (health_work_func good (clock 1500) (clock 2500) false 5000 monitor []).1
    ≡ schedule_health ∷ rd reg_status ∷ rd reg_status ∷ rd reg_scratch ∷ wr reg_scratch 1 ∷ []
unfolding health_work_func health_check health_check_heartbeat health_check_errors health_check_hang
    health_reset
works = refl

hang_resets :
    (hang_check_work_func late_worker
      (clock 9001)
      (clock 2500)
      false
      5000
      monitor
      (rd reg_status ∷ rd reg_status ∷ [])).0.hang_count
    ≡ 1
unfolding hang_check_work_func health_check_hang reset_schedule
hang_resets = refl

disabled :
    monitor_round good
      (clock 1500)
      (clock 2500)
      false
      5000
      (record monitor { monitoring_enabled = false })
      []
    ≡ (record monitor { monitoring_enabled = false }, sleep 1000 ∷ [])
unfolding monitor_round
disabled = refl

no_monitor :
    health_check_now good (clock 1500) (clock 2500) false 5000 none [] ≡ ((err enodev, none), [])
unfolding health_check_now
no_monitor = refl

started :
    health_init true ok 1000 2000 []
    ≡ ((ok, some monitor), schedule_hang_check ∷ schedule_health ∷ start_thread ∷ [])
unfolding health_init
started = refl

ended : health_fini (some monitor) [] ≡ (none, stop_thread ∷ cancel_hang_check ∷ cancel_health ∷ [])
unfolding health_fini
ended = refl
