-- ===== src/Health/Resets.antt =====
-- When `mgpu_health_check` asks for a reset, in one check and in a series of them.
use package.amdhardware_kernel.Common.{
  ℕ, zero, suc, ◌+◌, ◌^◌, ◌≤◌, ◌<◌, ◌≡◌, refl, ap, sym, ◌∙◌, inl, inr, Bool, true, false, not, ◌&&◌,
  ◌||◌, arith, ltb, leb, if◌then◌else◌, if_true, if_false, u32, u64, flag, Bool-cases,
}
use package.amdhardware_kernel.Bus.{Trace, Hw, Io}
use package.amdhardware_kernel.Bus.Regs.{reg_status, status_error}
use package.amdhardware_kernel.Health.Kept.{kept-health_check_hang}
use package.amdhardware_kernel.Health.Requests.{
  requests, requests-heartbeat, requests-errors, requests-hang, requests-health_reset,
}
use package.amdhardware_kernel.Health.{
  Monitor, error_threshold, health_check_heartbeat, health_check_errors, health_check_hang,
  health_reset, health_check,
}

and_false_right : (b : Bool) → (b && false) ≡ false
and_false_right true = refl
and_false_right false = refl

counts : (x : ℕ) (b : Bool) → (ltb 0 (1 + x) && b) ≡ b
counts x b = ground arith

or_true : (a b c : Bool) → b ≡ true → (a || b || c) ≡ true
or_true a b c e = ground (arith, e)

module _ (hw : Hw) (jiffies ktime : Trace → ℕ) where
  -- The count of errors in a row after a check that reads this status.
  abbrev pub errors_after : ℕ → Monitor → ℕ
  errors_after status m = if flag status status_error then u32 (m.consecutive_errors + 1) else 0

  errors-health_check_errors :
      (m : Monitor) (h : Trace)
      → (health_check_errors hw jiffies ktime m h).0.1.consecutive_errors
        ≡ errors_after (hw h reg_status) m
  unfolding health_check_errors
  errors-health_check_errors m h = elim (Bool-cases (flag (hw h reg_status) status_error)) [
    | inl e ↦
        ap (λ (o : (ℕ × Monitor) × Trace). o.0.1.consecutive_errors) (if_true _ _ e)
        ∙ sym (if_true _ _ e)
    | inr e ↦
        ap (λ (o : (ℕ × Monitor) × Trace). o.0.1.consecutive_errors) (if_false _ _ e)
        ∙ sym (if_false _ _ e)
  ]

  -- The count decides alone: it is at least the threshold only after an error.
  too_many_lem :
      (m : Monitor) (h : Trace)
      → (let (error_count, m') = (health_check_errors hw jiffies ktime m h).0 in
          ltb 0 error_count && leb error_threshold m'.consecutive_errors)
        ≡ leb error_threshold (errors_after (hw h reg_status) m)
  unfolding health_check_errors
  too_many_lem m h = elim (Bool-cases (flag (hw h reg_status) status_error)) [
    | inl e ↦
        ap
          (λ (o : (ℕ × Monitor) × Trace).
            ltb 0 o.0.0 && leb error_threshold o.0.1.consecutive_errors)
          (if_true _ _ e)
        ∙ counts _ _
        ∙ ap (leb error_threshold) (sym (if_true _ 0 e))
    | inr e ↦
        ap
          (λ (o : (ℕ × Monitor) × Trace).
            ltb 0 o.0.0 && leb error_threshold o.0.1.consecutive_errors)
          (if_false _ _ e)
        ∙ and_false_right _
        ∙ ap (leb error_threshold) (sym (if_false (u32 (m.consecutive_errors + 1)) 0 e))
  ]

  recoveries-health_check_errors :
      (m : Monitor) (h : Trace)
      → (health_check_errors hw jiffies ktime m h).0.1.recovery_count ≡ m.recovery_count
  unfolding health_check_errors
  recoveries-health_check_errors m h = elim (Bool-cases (flag (hw h reg_status) status_error)) [
    | inl e ↦ ap (λ (o : (ℕ × Monitor) × Trace). o.0.1.recovery_count) (if_true _ _ e)
    | inr e ↦ ap (λ (o : (ℕ × Monitor) × Trace). o.0.1.recovery_count) (if_false _ _ e)
  ]

  health_reset_errors :
      (in_reset b : Bool) (m : Monitor) (h : Trace)
      → (health_reset hw jiffies ktime in_reset b m h).0.consecutive_errors ≡ m.consecutive_errors
  unfolding health_reset
  health_reset_errors in_reset true m h = refl
  health_reset_errors in_reset false m h = refl

  health_reset_needed :
      (in_reset b : Bool) (m : Monitor) (h : Trace)
      → b ≡ true
      → (health_reset hw jiffies ktime in_reset b m h).0.recovery_count ≡ u64 (m.recovery_count + 1)
  unfolding health_reset
  health_reset_needed in_reset true m h e = refl
  health_reset_needed in_reset false m h e = cc

  -- The device reports an error whenever it is asked.
  abbrev pub Failing : Type 0
  Failing = (h : Trace) → flag (hw h reg_status) status_error ≡ true

  module _ (in_reset : Bool) (timeout : ℕ) where
    -- The monitor and the events before the three checks.
    abbrev begun : Monitor → Trace → Monitor
    begun m h = record m { check_count = u64 (m.check_count + 1); last_check = ktime h }

    abbrev at_errors : Monitor → Trace → (Bool × Monitor) × Trace
    at_errors m h = health_check_heartbeat hw jiffies ktime (begun m h) h

    abbrev at_hang : Monitor → Trace → (ℕ × Monitor) × Trace
    at_hang m h = let o = at_errors m h in health_check_errors hw jiffies ktime o.0.1 o.1

    abbrev at_reset : Monitor → Trace → (Bool × Monitor) × Trace
    at_reset m h = let o = at_hang m h in health_check_hang hw jiffies ktime timeout o.0.1 o.1

    abbrev too_many : Monitor → Trace → Bool
    too_many m h =
        ltb 0 (at_hang m h).0.0 && leb error_threshold (at_hang m h).0.1.consecutive_errors

    abbrev needed : Monitor → Trace → Bool
    needed m h = not (at_errors m h).0.0 || too_many m h || (at_reset m h).0.0

    health_check_lem :
        (m : Monitor) (h : Trace)
        → health_check hw jiffies ktime in_reset timeout m h
          ≡ health_reset hw jiffies ktime in_reset (needed m h) (at_reset m h).0.1 (at_reset m h).1
    unfolding health_check
    health_check_lem m h = refl

    heartbeat_errors :
        (m : Monitor) (h : Trace) → (at_errors m h).0.1.consecutive_errors ≡ m.consecutive_errors
    unfolding health_check_heartbeat
    heartbeat_errors m h = refl

    heartbeat_recoveries :
        (m : Monitor) (h : Trace) → (at_errors m h).0.1.recovery_count ≡ m.recovery_count
    unfolding health_check_heartbeat
    heartbeat_recoveries m h = refl

    errors_in_check :
        (m : Monitor) (h : Trace)
        → Failing
        → (at_hang m h).0.1.consecutive_errors ≡ u32 (m.consecutive_errors + 1)
    errors_in_check m h failing =
        errors-health_check_errors (at_errors m h).0.1 (at_errors m h).1
        ∙ if_true _ 0 (failing (at_errors m h).1)
        ∙ ap (λ n. u32 (n + 1)) (heartbeat_errors m h)

    errors-health_check :
        (m : Monitor) (h : Trace)
        → Failing
        → (health_check hw jiffies ktime in_reset timeout m h).0.consecutive_errors
          ≡ u32 (m.consecutive_errors + 1)
    errors-health_check m h failing =
        ap (λ (o : Monitor × Trace). o.0.consecutive_errors) (health_check_lem m h)
        ∙ health_reset_errors in_reset (needed m h) (at_reset m h).0.1 (at_reset m h).1
        ∙ kept-health_check_hang hw jiffies ktime (λ m'. m'.consecutive_errors) (λ m' x j. refl)
            (λ m' x j. refl) (λ m' x j. refl) timeout (at_hang m h).0.1 (at_hang m h).1
        ∙ errors_in_check m h failing

    needed_lem :
        (m : Monitor) (h : Trace)
        → Failing
        → error_threshold ≤ u32 (m.consecutive_errors + 1)
        → needed m h ≡ true
    needed_lem m h failing many =
        let count = errors_in_check m h failing in
        let decided =
          too_many_lem (at_errors m h).0.1 (at_errors m h).1
          ∙ ap (leb error_threshold)
              (sym (errors-health_check_errors (at_errors m h).0.1 (at_errors m h).1) ∙ count)
          ∙ ground (arith, many) in
        or_true (not (at_errors m h).0.0) (too_many m h) (at_reset m h).0.0 decided

    -- The request of a check, and that it is the only one.
    requests-health_check :
        (m : Monitor) (h : Trace)
        → Failing
        → error_threshold ≤ u32 (m.consecutive_errors + 1)
        → requests (health_check hw jiffies ktime in_reset timeout m h).1
          ≡ (if in_reset then requests h else suc (requests h))
    requests-health_check m h failing many =
        ap (λ (o : Monitor × Trace). requests o.1) (health_check_lem m h)
        ∙ requests-health_reset hw jiffies ktime in_reset (needed m h) (at_reset m h).0.1
            (at_reset m h).1 (needed_lem m h failing many)
        ∙ ap (λ n. if in_reset then n else suc n)
            (requests-hang hw jiffies ktime timeout (at_hang m h).0.1 (at_hang m h).1
              ∙ requests-errors hw jiffies ktime (at_errors m h).0.1 (at_errors m h).1
              ∙ requests-heartbeat hw jiffies ktime (begun m h) h)

    recoveries-health_check :
        (m : Monitor) (h : Trace)
        → Failing
        → error_threshold ≤ u32 (m.consecutive_errors + 1)
        → (health_check hw jiffies ktime in_reset timeout m h).0.recovery_count
          ≡ u64 (m.recovery_count + 1)
    recoveries-health_check m h failing many =
        ap (λ (o : Monitor × Trace). o.0.recovery_count) (health_check_lem m h)
        ∙ health_reset_needed in_reset (needed m h) (at_reset m h).0.1 (at_reset m h).1
            (needed_lem m h failing many)
        ∙ ap (λ n. u64 (n + 1))
            (kept-health_check_hang hw jiffies ktime (λ m'. m'.recovery_count) (λ m' x j. refl)
                (λ m' x j. refl) (λ m' x j. refl) timeout (at_hang m h).0.1 (at_hang m h).1
              ∙ recoveries-health_check_errors (at_errors m h).0.1 (at_errors m h).1
              ∙ heartbeat_recoveries m h)

  module _ (in_reset : ℕ → Bool) (others : ℕ → Trace → Trace) (timeout : ℕ) where
    -- The checks of `n` rounds: `others` is what else comes to the history before each one, and
    -- `in_reset` whether a reset is under way then.
    abbrev pub checks : ℕ → Monitor → Io Monitor
    checks zero m h = (m, h)
    checks (suc n) m h =
        let (m', h') = checks n m h in
        health_check hw jiffies ktime (in_reset n) timeout m' (others n h')

    errors-checks :
        (n : ℕ) (m : Monitor) (h : Trace)
        → Failing
        → m.consecutive_errors + n < 2 ^ 32
        → (checks n m h).0.consecutive_errors ≡ m.consecutive_errors + n
    errors-checks zero m h failing lt = omega arith
    errors-checks (suc n) m h failing lt = omega (
      arith,
      errors-health_check (in_reset n) timeout (checks n m h).0 (others n (checks n m h).1) failing,
      errors-checks n m h failing (omega arith),
    )

    -- While the device reports an error whenever it is asked, each health check counts it, below 2^32, and
    -- from the tenth error in a row on every check counts a recovery and adds one request for a
    -- reset to the history, or none while a reset is under way, whatever the heartbeat and the
    -- check for a hang find, and whatever the clocks say and else comes to the history in between.
    pub checks_failing :
        (n : ℕ) (m : Monitor) (h : Trace)
        → Failing
        → error_threshold ≤ m.consecutive_errors + suc n
        → m.consecutive_errors + suc n < 2 ^ 32
        → (let before = requests (others n (checks n m h).1) in
            ((checks (suc n) m h).0.consecutive_errors ≡ m.consecutive_errors + suc n)
            × ((checks (suc n) m h).0.recovery_count ≡ u64 ((checks n m h).0.recovery_count + 1))
            × (requests (checks (suc n) m h).1 ≡ (if in_reset n then before else suc before)))
    checks_failing n m h failing many lt =
        let before = errors-checks n m h failing (omega arith) in
        let m' = (checks n m h).0 in
        let h' = others n (checks n m h).1 in
        let enough : error_threshold ≤ u32 (m'.consecutive_errors + 1) = omega (arith, before) in
        (
          errors-checks (suc n) m h failing lt,
          recoveries-health_check (in_reset n) timeout m' h' failing enough,
          requests-health_check (in_reset n) timeout m' h' failing enough,
        )
