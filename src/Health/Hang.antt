-- ===== src/Health/Hang.antt =====
-- When `mgpu_health_check_hang` reports a hang.
use package.amdhardware_kernel.Common.{
  ℕ, ◌+◌, ◌-◌, ◌^◌, ◌≤◌, ◌<◌, ◌≡◌, refl, ap, sym, ◌∙◌, inl, inr, Bool, true, false, ◌&&◌, ◌||◌, ◌∷◌,
  arith, ◌==◌, if_true, if_false, u64, sub64, flag, Bool-cases,
}
use package.amdhardware_kernel.Bus.{rd, Trace, Hw}
use package.amdhardware_kernel.Bus.Regs.{reg_status, reg_cmd_head, reg_fence_value, status_busy}
use package.amdhardware_kernel.Health.{
  Monitor, time_after, head_progress, fence_progress, health_check_hang,
}

or_nothing : (a b : Bool) → b ≡ false → a ≡ (a || b)
or_nothing true b e = refl
or_nothing false b e = sym e

and_nothing : (a : Bool) {b : Bool} → b ≡ false → (a && b) ≡ false
and_nothing true e = e
and_nothing false e = refl

-- A deadline has not passed before its timeout is over.
young_deadline :
    (since now timeout : ℕ)
    → since ≤ now
    → now ≤ since + timeout
    → now < 2 ^ 64
    → timeout < 2 ^ 63
    → time_after now (u64 (since + timeout)) ≡ false
young_deadline since now timeout le young nl tl =
    let gap : sub64 (u64 (since + timeout)) now ≡ since + timeout - now = omega arith in
    ground (arith, gap)

and_true : {a b : Bool} → a ≡ true → (a && b) ≡ b
and_true {a} {b} e = ground (arith, e)

and_false : {a : Bool} (b : Bool) → a ≡ false → (a && b) ≡ false
and_false {a} b e = ground (arith, e)

-- Whether the deadline of the last recorded activity has passed by `now`.
abbrev pub late : ℕ → ℕ → Monitor → Bool
late now timeout m = time_after now (u64 (m.last_activity + timeout))

-- What the check of the fence adds to the answer of the check of the head.
fence_progress_lem :
    (now timeout fence_value : ℕ) (stuck : Bool) (m : Monitor)
    → (fence_progress now timeout fence_value stuck m).0
      ≡ (stuck || (fence_value == m.last_fence_value && late now timeout m))
fence_progress_lem now timeout fence_value stuck m =
    elim (Bool-cases (fence_value == m.last_fence_value)) [
      | inl e ↦
          ap (λ (o : Bool × Monitor). o.0) (if_true _ _ e) ∙ ap (λ b. stuck || b) (sym (and_true e))
      | inr e ↦
          ap (λ (o : Bool × Monitor). o.0) (if_false _ _ e) ∙ or_nothing stuck _ (and_false _ e)
    ]

module _ (timeout : ℕ) (m : Monitor) (j₁ j₂ : ℕ) (cmd_head fence_value : ℕ) where
  -- The answer of the two checks, with the times of their reads of `jiffies`.
  abbrev pub stuck_at : Bool
  stuck_at =
      cmd_head == m.last_cmd_head
      && (late j₁ timeout m || (fence_value == m.last_fence_value && late j₂ timeout m))

  abbrev answer : Bool × Monitor → Bool
  answer o = (fence_progress j₂ timeout fence_value o.0 o.1).0

  both_checks :
      j₁ ≤ j₂
      → j₂ ≤ j₁ + timeout
      → j₂ < 2 ^ 64
      → timeout < 2 ^ 63
      → answer (head_progress j₁ timeout cmd_head m) ≡ stuck_at
  both_checks le young jl tl = elim (Bool-cases (cmd_head == m.last_cmd_head)) [
    | inl e ↦
        ap answer (if_true _ _ e) ∙ fence_progress_lem j₂ timeout fence_value _ m ∙ sym (and_true e)
    | inr e ↦
        ap answer (if_false _ _ e)
        ∙ fence_progress_lem j₂ timeout fence_value false _
        ∙ and_nothing _ (young_deadline j₁ j₂ timeout le young jl tl)
        ∙ sym (and_false _ e)
  ]

  -- A hang that the check of the head finds stays.
  head_alone :
      (cmd_head == m.last_cmd_head) ≡ true
      → late j₁ timeout m ≡ true
      → answer (head_progress j₁ timeout cmd_head m) ≡ true
  head_alone same passed =
      ap answer (if_true _ _ same)
      ∙ fence_progress_lem j₂ timeout fence_value _ m
      ∙ ground (arith, passed)

module _ (hw : Hw) (jiffies ktime : Trace → ℕ) (timeout : ℕ) (m : Monitor) (h : Trace) where
  -- The histories after the read of the command head and after the read of the fence.
  abbrev pub head_read : Trace
  head_read = rd reg_cmd_head ∷ rd reg_status ∷ h

  abbrev pub fence_read : Trace
  fence_read = rd reg_fence_value ∷ head_read

  busy_check :
      flag (hw h reg_status) status_busy ≡ true
      → (health_check_hang hw jiffies ktime timeout m h).0.0
        ≡ answer timeout m
            (jiffies head_read)
            (jiffies fence_read)
            (hw (rd reg_status ∷ h) reg_cmd_head)
            (hw head_read reg_fence_value)
            (head_progress (jiffies head_read) timeout (hw (rd reg_status ∷ h) reg_cmd_head) m)
  unfolding health_check_hang
  busy_check e = ap (λ (o : (Bool × Monitor) × Trace). o.0.0) (if_true _ _ e)

  idle_check :
      flag (hw h reg_status) status_busy ≡ false
      → health_check_hang hw jiffies ktime timeout m h ≡ ((false, m), rd reg_status ∷ h)
  unfolding health_check_hang
  idle_check e = if_false _ _ e

  -- mgpu_health_check_hang reports a hang exactly when the status says busy, the command head is
  -- the one that was recorded last, and the timeout since the last recorded activity has passed
  -- either when the head is tested, or when the fence is tested with the fence still the one that
  -- was recorded last: while the head moves, a fence that stands is no hang. This holds where the
  -- 64-bit jiffies neither goes back nor wraps between the two tests, which are no further apart
  -- than the timeout, and that is below 2^63.
  pub health_check_hang_lem :
      jiffies head_read ≤ jiffies fence_read
      → jiffies fence_read ≤ jiffies head_read + timeout
      → jiffies fence_read < 2 ^ 64
      → timeout < 2 ^ 63
      → (health_check_hang hw jiffies ktime timeout m h).0.0 ≡ (
          flag (hw h reg_status) status_busy
          && stuck_at timeout m
              (jiffies head_read)
              (jiffies fence_read)
              (hw (rd reg_status ∷ h) reg_cmd_head)
              (hw head_read reg_fence_value))
  health_check_hang_lem le young jl tl = elim (Bool-cases (flag (hw h reg_status) status_busy)) [
    | inl e ↦
        busy_check e
        ∙ both_checks timeout m (jiffies head_read) (jiffies fence_read) _ _ le young jl tl
        ∙ sym (and_true e)
    | inr e ↦ ap (λ (o : (Bool × Monitor) × Trace). o.0.0) (idle_check e) ∙ sym (and_false _ e)
  ]

-- A check of an idle device records nothing: if the next check finds the device busy with the head
-- where it was, and when it tests the head the timeout since the last activity has passed, it
-- reports a hang, however short a time the device has been busy.
pub health_check_hang_after_idle :
    (hw : Hw) (jiffies ktime : Trace → ℕ) (timeout : ℕ) (m : Monitor) (h h₂ : Trace)
    → flag (hw h reg_status) status_busy ≡ false
    → flag (hw h₂ reg_status) status_busy ≡ true
    → hw (rd reg_status ∷ h₂) reg_cmd_head ≡ m.last_cmd_head
    → time_after (jiffies (rd reg_cmd_head ∷ rd reg_status ∷ h₂)) (u64 (m.last_activity + timeout))
      ≡ true
    → (let m' = (health_check_hang hw jiffies ktime timeout m h).0.1 in
        (health_check_hang hw jiffies ktime timeout m' h₂).0.0)
      ≡ true
health_check_hang_after_idle hw jiffies ktime timeout m h h₂ idle busy same passed =
    ap (λ (o : (Bool × Monitor) × Trace). (health_check_hang hw jiffies ktime timeout o.0.1 h₂).0.0)
      (idle_check hw jiffies ktime timeout m h idle)
    ∙ busy_check hw jiffies ktime timeout m h₂ busy
    ∙ head_alone timeout m _ _ _ _ (ground (arith, same)) passed
