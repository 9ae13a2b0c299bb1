-- ===== src/Health/Requests.antt =====
-- How often a history asks for a reset, and that the three checks of `mgpu_health_check` do not ask.
use package.amdhardware_kernel.Common.{
  ℕ, suc, ◌/◌, ◌%◌, ◌^◌, ◌≡◌, refl, ap, ◌∙◌, inl, inr, Bool, true, false, [], ◌∷◌, if◌then◌else◌,
  if_true, if_false, flag, Bool-cases,
}
use package.amdhardware_kernel.Bus.{rd, schedule_reset, Trace, Hw, Io}
use package.amdhardware_kernel.Bus.Regs.{reg_status, status_busy, status_error}
use package.amdhardware_kernel.Schedule.{reset_schedule}
use package.amdhardware_kernel.Health.{
  Monitor, get_error_info, clear_error, health_check_heartbeat, health_check_errors,
  health_check_hang, health_reset,
}

-- The requests for a reset in a history.
abbrev pub requests : Trace → ℕ
requests [] = 0
requests (e ∷ h) = let others = requests h in elim e [ schedule_reset ↦ suc others | _ ↦ others ]

requests-clear_error : (status : ℕ) (h : Trace) → requests (clear_error status h).1 ≡ requests h
unfolding clear_error
requests-clear_error status h =
    elim (Bool-cases (get_error_info (status / 2 ^ 16 % 2 ^ 8)).recoverable) [
      | inl e ↦ ap (λ (run : Io (Unit {0})). requests (run h).1) (if_true _ _ e)
      | inr e ↦ ap (λ (run : Io (Unit {0})). requests (run h).1) (if_false _ _ e)
    ]

module _ (hw : Hw) (jiffies ktime : Trace → ℕ) where
  pub requests-heartbeat :
      (m : Monitor) (h : Trace)
      → requests (health_check_heartbeat hw jiffies ktime m h).1 ≡ requests h
  unfolding health_check_heartbeat
  requests-heartbeat m h = refl

  pub requests-errors :
      (m : Monitor) (h : Trace) → requests (health_check_errors hw jiffies ktime m h).1 ≡ requests h
  unfolding health_check_errors
  requests-errors m h = elim (Bool-cases (flag (hw h reg_status) status_error)) [
    | inl e ↦
        ap (λ (o : (ℕ × Monitor) × Trace). requests o.1) (if_true _ _ e)
        ∙ requests-clear_error (hw h reg_status) (rd reg_status ∷ h)
    | inr e ↦ ap (λ (o : (ℕ × Monitor) × Trace). requests o.1) (if_false _ _ e)
  ]

  pub requests-hang :
      (timeout : ℕ) (m : Monitor) (h : Trace)
      → requests (health_check_hang hw jiffies ktime timeout m h).1 ≡ requests h
  unfolding health_check_hang
  requests-hang timeout m h = elim (Bool-cases (flag (hw h reg_status) status_busy)) [
    | inl e ↦ ap (λ (o : (Bool × Monitor) × Trace). requests o.1) (if_true _ _ e)
    | inr e ↦ ap (λ (o : (Bool × Monitor) × Trace). requests o.1) (if_false _ _ e)
  ]

  -- A reset that is needed is asked for once, unless one is under way.
  pub requests-health_reset :
      (in_reset b : Bool) (m : Monitor) (h : Trace)
      → b ≡ true
      → requests (health_reset hw jiffies ktime in_reset b m h).1
        ≡ (if in_reset then requests h else suc (requests h))
  unfolding health_reset reset_schedule
  requests-health_reset true true m h e = refl
  requests-health_reset false true m h e = refl
  requests-health_reset in_reset false m h e = cc
