-- ===== src/Sched/Calls/Cancel.antt =====
-- `mgpu_sched_cancel_job` of a job that waits: `list_del` takes it off its list, and `mgpu_job_complete`
-- moves the node again.
use package.amdhardware_kernel.Common.{ℕ, ◌≡◌, inl, inr, true, some, List, arith, ◌==◌}
use package.amdhardware_kernel.Bus.{Trace, ecanceled, err}
use package.amdhardware_kernel.Klist.{fault, done, search, walk}
use package.amdhardware_kernel.Sched.{
  Sched, job_aborted, is_waiting, put_links, put_job, dependents_of,
}
use package.amdhardware_kernel.Sched.Running.Faults.{
  job_complete-poisoned, list_del-cases, deleted, deleted-poisoned,
}
use package.amdhardware_kernel.Sched.Calls.{sched_cancel_job, cancel_found}

-- The state when `mgpu_job_complete` is called.
abbrev pub cancelled : ℕ → Sched → Sched
cancelled a s =
    put_links (put_job a (record (s.job a) { state = job_aborted }) s) (deleted a s.links)

cancel_found-faults :
    (fuel a now : ℕ) (s : Sched) (h : Trace) (ds : List ℕ)
    → is_waiting (s.job a).state ≡ true
    → walk (deleted a s.links) (dependents_of a) fuel ≡ done ds
    → cancel_found fuel a now s h ≡ fault
unfolding cancel_found
cancel_found-faults fuel a now s h ds waiting w = elim (list_del-cases a s.links) [
  | inl e ↦ ground (arith, waiting, e)
  | inr e ↦ ground (
    arith,
    waiting,
    e,
    job_complete-poisoned fuel a (err ecanceled) now (cancelled a s) h ds w
        (deleted-poisoned a s.links),
  )
]

-- When mgpu_sched_cancel_job finds a job in the state PENDING or QUEUED, and the loop over the
-- dependents of the job ends, the call does not return but faults on the links that list_del has
-- poisoned.
pub sched_cancel_job-faults :
    (s : Sched) (id a fuel now : ℕ) (h : Trace) (ds : List ℕ)
    → search s.links s.all_jobs (λ p. (s.job p).job_id == id) fuel ≡ done (some a)
    → is_waiting (s.job a).state ≡ true
    → walk (deleted a s.links) (dependents_of a) fuel ≡ done ds
    → sched_cancel_job fuel id now s h ≡ fault
unfolding sched_cancel_job
sched_cancel_job-faults s id a fuel now h ds found waiting w =
    ground (arith, found, cancel_found-faults fuel a now s h ds waiting w)
