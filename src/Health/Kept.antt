-- ===== src/Health/Kept.antt =====
-- The fields of the monitor that `mgpu_health_check_hang` does not write.
use package.amdhardware_kernel.Common.{
  ℕ, ◌≡◌, refl, ap, ◌∙◌, inl, inr, Bool, true, false, ◌==◌, if_true, if_false, flag, Bool-cases,
}
use package.amdhardware_kernel.Bus.{Trace, Hw}
use package.amdhardware_kernel.Bus.Regs.{reg_status, status_busy}
use package.amdhardware_kernel.Health.{
  head_progress, fence_progress, count_hang, Monitor, health_check_hang,
}

module _ (hw : Hw) (jiffies ktime : Trace → ℕ) where
  module _ (f : Monitor → ℕ)
      (head_kept : (m : Monitor) (x j : ℕ)
        → f (record m { last_cmd_head = x; last_activity = j }) ≡ f m)
      (fence_kept : (m : Monitor) (x j : ℕ)
        → f (record m { last_fence_value = x; last_activity = j }) ≡ f m)
      (hang_kept : (m : Monitor) (c k : ℕ)
        → f (record m { hang_count = c; last_hang = k }) ≡ f m) where
    kept-head_progress :
        (now timeout x : ℕ) (m : Monitor) → f (head_progress now timeout x m).1 ≡ f m
    kept-head_progress now timeout x m = elim (Bool-cases (x == m.last_cmd_head)) [
      | inl e ↦ ap (λ (o : Bool × Monitor). f o.1) (if_true _ _ e)
      | inr e ↦ ap (λ (o : Bool × Monitor). f o.1) (if_false _ _ e) ∙ head_kept m x now
    ]

    kept-fence_progress :
        (now timeout x : ℕ) (b : Bool) (m : Monitor) → f (fence_progress now timeout x b m).1 ≡ f m
    kept-fence_progress now timeout x b m = elim (Bool-cases (x == m.last_fence_value)) [
      | inl e ↦ ap (λ (o : Bool × Monitor). f o.1) (if_true _ _ e)
      | inr e ↦ ap (λ (o : Bool × Monitor). f o.1) (if_false _ _ e) ∙ fence_kept m x now
    ]

    kept-count_hang : (now : ℕ) (b : Bool) (m : Monitor) → f (count_hang now b m) ≡ f m
    kept-count_hang now true m = hang_kept m _ _
    kept-count_hang now false m = refl

    -- The check for a hang leaves the other fields.
    pub kept-health_check_hang :
        (timeout : ℕ) (m : Monitor) (h : Trace)
        → f (health_check_hang hw jiffies ktime timeout m h).0.1 ≡ f m
    unfolding health_check_hang
    kept-health_check_hang timeout m h = elim (Bool-cases (flag (hw h reg_status) status_busy)) [
      | inl e ↦
          ap (λ (o : (Bool × Monitor) × Trace). f o.0.1) (if_true _ _ e)
          ∙ kept-count_hang _ _ _
          ∙ kept-fence_progress _ timeout _ _ _
          ∙ kept-head_progress _ timeout _ m
      | inr e ↦ ap (λ (o : (Bool × Monitor) × Trace). f o.0.1) (if_false _ _ e)
    ]
