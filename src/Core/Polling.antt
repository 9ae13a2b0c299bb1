-- ===== src/Core/Polling.antt =====
-- The bounded wait for a status that ends `mgpu_core_reset`, `mgpu_reset_hw` and `mgpu_pipeline_flush`
-- (the idle bit), and `mgpu_pipeline_fetch_vertices` (the busy bit clear).
use package.amdhardware_kernel.Common.{
  ℕ, zero, suc, Bool, ◌<◌, ◌≡◌, ◌↔◌, ◌∷◌, true, false, Bool-cases, inl, inr, arith, flag,
}
use package.amdhardware_kernel.Bus.{Event, rd, wr, sleep, Trace, Hw, ok}
use package.amdhardware_kernel.Bus.Regs.{reg_status, reg_control, ctrl_reset, status_idle}
use package.amdhardware_kernel.Core.{poll_until, poll_idle, timed_out, core_reset}

-- The bus after `k` polls that did not end the wait, with the delay after each.
pub polled : Event → ℕ → Trace → Trace
polled delay zero h = h
polled delay (suc k) h = polled delay k (delay ∷ rd reg_status ∷ h)

module _ (hw : Hw) (ended : ℕ → Bool) (delay : Event) where
  -- The poll after `k` others reads a status that ends the wait.
  abbrev pub EndedAt : Trace → ℕ → Type 0
  EndedAt h k = ended (hw (polled delay k h) reg_status) ≡ true

  -- What a wait of `n` polls that does not time out has seen.
  abbrev pub EndedBefore : Trace → ℕ → Type 0
  EndedBefore h n = (k : ℕ) × (suc k < n) × EndedAt h k

  pub ended_of_poll :
      (n : ℕ) (h : Trace) → timed_out (poll_until hw ended delay n h).0 ≡ false → EndedBefore h n
  unfolding poll_until polled
  ended_of_poll zero h e = cc
  ended_of_poll (suc n) h e = elim (Bool-cases (ended (hw h reg_status))) [
    | inl now ↦ (0, ground arith, now)
    | inr later ↦ next (ended_of_poll n (delay ∷ rd reg_status ∷ h) (ground arith))
  ]
    where
      next : EndedBefore (delay ∷ rd reg_status ∷ h) n → EndedBefore h (suc n)
      next (k, lt, i) = (suc k, omega arith, i)

  pub poll_of_ended :
      (n k : ℕ) (h : Trace)
      → suc k < n
      → EndedAt h k
      → timed_out (poll_until hw ended delay n h).0 ≡ false
  unfolding poll_until polled
  poll_of_ended zero k h lt i = elim lt [ ]
  poll_of_ended (suc n) zero h lt i = ground arith
  poll_of_ended (suc n) (suc k) h lt i =
      ground (arith, poll_of_ended n k (delay ∷ rd reg_status ∷ h))

-- A wait of `n` polls for the idle bit that does not time out has seen this.
abbrev pub IdleBefore : Hw → Event → Trace → ℕ → Type 0
IdleBefore hw = EndedBefore hw (λ status. flag status status_idle)

module _ (hw : Hw) where
  pub idle_of_poll :
      (delay : Event) (n : ℕ) (h : Trace)
      → timed_out (poll_idle hw delay n h).0 ≡ false
      → IdleBefore hw delay h n
  idle_of_poll = ended_of_poll hw (λ status. flag status status_idle)

  pub poll_of_idle :
      (delay : Event) (n k : ℕ) (h : Trace)
      → suc k < n
      → flag (hw (polled delay k h) reg_status) status_idle ≡ true
      → timed_out (poll_idle hw delay n h).0 ≡ false
  poll_of_idle = poll_of_ended hw (λ status. flag status status_idle)

  -- The bus at the first poll of `mgpu_core_reset`.
  abbrev pub released : Trace → Trace
  released h = wr reg_control 0 ∷ sleep 10 ∷ wr reg_control ctrl_reset ∷ h

  -- `mgpu_core_reset` returns 0 exactly when one of the first 99 of its 100 polls of the status, each a
  -- millisecond after the one before, reads the idle bit: at the last poll it no longer counts.
  pub core_reset-ok :
      (h : Trace) → ((core_reset hw h).0 ≡ ok) ↔ IdleBefore hw (sleep 1) (released h) 100
  unfolding core_reset
  core_reset-ok h = (
    (λ e. idle_of_poll (sleep 1) 100 (released h) (ground arith)),
    λ i. ground (arith, poll_of_idle (sleep 1) 100 i.0 (released h)),
  )
