-- ===== src/Sched/Calls/Parking.antt =====
-- The lists of the queues as the submissions leave them, and `mgpu_sched_process_queue` on them.
use package.amdhardware_kernel.Common.{
  ℕ, zero, suc, ◌+◌, ◌≤◌, ◌<◌, ◌≡◌, ◌≢◌, ◌⊎◌, inl, inr, refl, sym, ap, ap₂, ◌∙◌, Bool, true, false,
  ◌&&◌, Option, none, some, List, [], ◌∷◌, ◌++◌, arith, ◌==◌, if◌then◌else◌, if_true, if_false,
  length, Bool-cases, Option-cases,
}
pub mod Submitted
use mathlib.Core.Option.{some-injective}
use package.amdhardware_kernel.Bus.{Trace, Hw, Io, Status, ok, err}
use package.amdhardware_kernel.Ring.{Ring}
use package.amdhardware_kernel.Ring.Submit.{Kernel}
use package.amdhardware_kernel.Klist.{Links, Run, done, is_poison, put_between, update}
use package.amdhardware_kernel.Klist.Rings.{
  Outside, Distinct, last, IsList, list_add_tail-IsList, put_between-IsList, Outside-append,
}
use package.amdhardware_kernel.Klist.Searches.{Fail, search-exhausted}
use package.amdhardware_kernel.Sched.{
  Sched, Queue, Job, job_queued, job_is_ready, pending_of, num_priorities,
}
use package.amdhardware_kernel.Sched.Running.{process_queue, process_priorities}
use package.amdhardware_kernel.Sched.Calls.{select_queue}
use package.amdhardware_kernel.Sched.Calls.Submission.{
  Valid, submitted, head_for, sched_submit_job-submitted, priority-select_queue,
}

-- The nodes of a list as `Outside` takes them.
abbrev pub Away : List ℕ → List ℕ → Type 0
Away [] ys = Unit {0}
Away (x ∷ xs) ys = Outside x ys × Away xs ys

abbrev pub Queued : (ℕ → Job) → List ℕ → Type 0
Queued job [] = Unit {0}
Queued job (x ∷ xs) = ((job x).state ≡ job_queued) × Queued job xs

-- The lists of the queues hold these nodes, `lists i p` for the priority `p` of `queues[i]`: jobs in
-- the state QUEUED only, and no node stands on two of them.
pub record Parking (s : Sched) (lists : ℕ → ℕ → List ℕ) : Type 0 where
  pub ring :
      (i p : ℕ) (q : Queue)
      → s.queues i ≡ some q
      → p < num_priorities
      → IsList s.links (pending_of q p) (lists i p)
  pub parked : (i p : ℕ) → Queued s.job (lists i p)
  pub away :
      (i p : ℕ) (q : Queue) (j r : ℕ) (q' : Queue)
      → s.queues i ≡ some q
      → s.queues j ≡ some q'
      → (i ≢ j) ⊎ (p ≢ r)
      → Away (pending_of q p ∷ lists i p) (pending_of q' r ∷ lists j r)

Queued-Fail : (s : Sched) (xs : List ℕ) → Queued s.job xs → Fail (job_is_ready s) xs
unfolding job_is_ready
Queued-Fail s [] d = tt
Queued-Fail s (x ∷ xs) d = (ground (arith, d.0), Queued-Fail s xs d.1)

module _ (hw : Hw) (space : Ring → Io ℕ) (kern : Kernel) (now fuel : ℕ) where
  module _ (s : Sched) (h : Trace) (lists : ℕ → ℕ → List ℕ) (park : Parking s lists) (i : ℕ) where
    process_priorities-parked :
        (queue : Queue) (n : ℕ)
        → s.queues i ≡ some queue
        → n ≤ num_priorities
        → ((p : ℕ) → length (lists i p) < fuel)
        → process_priorities hw space kern now fuel n i queue s h ≡ done (s, h)
    unfolding process_priorities
    process_priorities-parked queue zero e le f = refl
    process_priorities-parked queue (suc n) e le f =
        let none_ready =
          search-exhausted s.links (pending_of queue n) (lists i n) fuel
            (park.ring i n queue e (omega arith)) (f n) (job_is_ready s)
            (Queued-Fail s (lists i n) (park.parked i n)) in
        ground (arith, none_ready, process_priorities-parked queue n e (omega arith) f)

    -- A queue whose lists hold only jobs in the state QUEUED runs none of them.
    pub process_queue-parked :
        ((p : ℕ) → length (lists i p) < fuel)
        → process_queue hw space kern now fuel i s h ≡ done (s, h)
    unfolding process_queue
    process_queue-parked f = elim (Option-cases (s.queues i)) [
      | inl e ↦ ground (arith, e)
      | inr (queue, e) ↦
          ground (arith, e, process_priorities-parked queue num_priorities e (omega arith) f)
    ]
