-- ===== src/Core/Waiting.antt =====
-- `mgpu_core_wait_idle`: what each outcome of the wait means for what the device showed.
use package.amdhardware_kernel.Common.{
  ◌||◌, if◌then◌else◌, ℕ, zero, suc, ◌+◌, ◌≡◌, ◌∷◌, Bool, true, false, not, ◌&&◌, arith, flag, ap,
  ◌∙◌,
}
use Prim.Native.Nat.add
use package.amdhardware_kernel.Bus.{rd, nap, Trace, Hw, eio, etimedout, ok, err}
use package.amdhardware_kernel.Bus.Regs.{reg_status, status_idle, status_busy, status_error}
use package.amdhardware_kernel.Core.{core_is_idle, core_wait_idle}

-- The bus after `k` rounds that neither saw an idle device nor an error.
pub waited : ℕ → Trace → Trace
waited zero h = h
waited (suc k) h = waited k (nap 100 200 ∷ rd reg_status ∷ rd reg_status ∷ h)

module _ (hw : Hw) where
  -- The first status read of a round shows the device idle and not busy.
  abbrev pub Idle : Trace → Type 0
  Idle h = (flag (hw h reg_status) status_idle && not (flag (hw h reg_status) status_busy)) ≡ true

  abbrev pub NotIdle : Trace → Type 0
  NotIdle h =
      (flag (hw h reg_status) status_idle && not (flag (hw h reg_status) status_busy)) ≡ false

  -- The second status read of a round shows an error.
  abbrev pub Failing : Trace → Bool → Type 0
  Failing h b = flag (hw (rd reg_status ∷ h) reg_status) status_error ≡ b

  abbrev pub Quiet : Trace → Type 0
  Quiet h = NotIdle h × Failing h false

  -- The first `n` rounds were quiet.
  abbrev pub AllQuiet : ℕ → Trace → Type 0
  AllQuiet zero h = Unit {0}
  AllQuiet (suc n) h = Quiet h × AllQuiet n (nap 100 200 ∷ rd reg_status ∷ rd reg_status ∷ h)

  -- After `k` quiet rounds the wait goes on with the rounds that are left.
  pub core_wait_idle-waited :
      (k polls : ℕ) (h : Trace)
      → AllQuiet k h
      → core_wait_idle hw (k + polls) h ≡ core_wait_idle hw polls (waited k h)
  unfolding waited core_wait_idle core_is_idle
  core_wait_idle-waited zero polls h q = ap (λ n. core_wait_idle hw n h) (omega arith)
  core_wait_idle-waited (suc k) polls h q = rw add.suc (step ∙ core_wait_idle-waited k polls _ q.1)
    where
      step :
          core_wait_idle hw (suc (k + polls)) h
          ≡ core_wait_idle hw (k + polls) (nap 100 200 ∷ rd reg_status ∷ rd reg_status ∷ h)
      step = ground arith

  core_wait_idle_outcome :
      (k polls : ℕ) (h : Trace)
      → AllQuiet k h
      → (Idle (waited k h) → core_wait_idle hw (k + suc polls) h ≡ (ok, rd reg_status ∷ waited k h))
        × (NotIdle (waited k h)
            → Failing (waited k h) true
            → core_wait_idle hw (k + suc polls) h
              ≡ (err eio, rd reg_status ∷ rd reg_status ∷ waited k h))
        × (core_wait_idle hw (k + 0) h ≡ (err etimedout, waited k h))
  unfolding core_wait_idle core_is_idle
  core_wait_idle_outcome k polls h q = (
    (λ i. rw (core_wait_idle-waited k (suc polls) h q) (ground arith)),
    (λ n f. rw (core_wait_idle-waited k (suc polls) h q) (ground arith)),
    rw (core_wait_idle-waited k 0 h q),
  )

  -- The first status read of a round shows the device idle and not busy.
  abbrev pub idle_at : Trace → Bool
  idle_at h = flag (hw h reg_status) status_idle && not (flag (hw h reg_status) status_busy)

  -- The second one shows an error.
  abbrev pub error_at : Trace → Bool
  error_at h = flag (hw (rd reg_status ∷ h) reg_status) status_error

  -- After `k` rounds with neither an idle device nor an error, `mgpu_core_wait_idle` returns -ETIMEDOUT
  -- if the deadline has passed. If not, and the next round shows one of the two, it returns 0 right
  -- after the status read that shows the device idle and not busy, and else -EIO after the second.
  pub core_wait_idle-ends :
      (k polls : ℕ) (h : Trace)
      → AllQuiet k h
      → (idle_at (waited k h) || error_at (waited k h)) ≡ true
      → (core_wait_idle hw (k + 0) h ≡ (err etimedout, waited k h))
        × (core_wait_idle hw (k + suc polls) h ≡ (
            if idle_at (waited k h)
            then (ok, rd reg_status ∷ waited k h)
            else (err eio, rd reg_status ∷ rd reg_status ∷ waited k h)))
  unfolding core_wait_idle core_is_idle
  core_wait_idle-ends k polls h q ends = (
    rw (core_wait_idle-waited k 0 h q),
    rw (core_wait_idle-waited k (suc polls) h q) (ground arith),
  )
