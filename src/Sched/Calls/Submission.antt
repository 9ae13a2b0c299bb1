-- ===== src/Sched/Calls/Submission.antt =====
-- What `mgpu_sched_submit_job` does to the list of the queue that it selects.
use package.amdhardware_kernel.Common.{
  ℕ, ◌+◌, ◌<◌, ◌≡◌, ◌≢◌, inl, inr, ap, ◌∙◌, false, ◌||◌, some, List, [], ◌∷◌, ◌++◌, arith, ◌==◌,
  leb, if_false, u64, Bool-cases,
}
use package.amdhardware_kernel.Bus.{Trace, wake, sched_wait, ok}
use package.amdhardware_kernel.Klist.{done, is_poison, list_add_tail, put_between, update}
use package.amdhardware_kernel.Klist.Rings.{Outside, last, IsList, list_add_tail-IsList}
use package.amdhardware_kernel.Sched.{
  Sched, Queue, Job, job_queued, pending_of, num_priorities, put_job,
}
use package.amdhardware_kernel.Sched.Calls.{
  enqueue, submit_to_queue, sched_submit_job, select_queue,
}

-- A job that can be submitted, and the queue that it goes to.
pub record Valid (s : Sched) (a : ℕ) (queue : Queue) : Type 0 where
  pub there : a ≢ 0
  pub commands : (s.job a).commands ≢ 0
  pub cmd_size : (s.job a).cmd_size ≢ 0
  pub queued_to : s.queues (select_queue s.num_queues (s.job a)).queue_id ≡ some queue
  pub priority : (s.job a).priority < num_priorities

-- A job is put last into the list of its priority.
abbrev pub appended : ℕ → Job → Queue → List ℕ → Sched → Sched
appended a j queue xs s =
    let head = pending_of queue j.priority in
    record s {
      job = update s.job a (record j { state = job_queued });
      total_jobs = u64 (s.total_jobs + 1);
      links = put_between a (last head xs) head s.links;
    }

enqueue_lem :
    (a : ℕ) (j : Job) (queue : Queue) (s : Sched) (h : Trace) (xs : List ℕ)
    → j.priority < num_priorities
    → list_add_tail a (pending_of queue j.priority) s.links ≡ done (appended a j queue xs s).links
    → enqueue a j queue s h ≡ done ((ok, appended a j queue xs s), wake sched_wait ∷ h)
unfolding enqueue
enqueue_lem a j queue s h xs p e = ground (arith, e)

pub priority-select_queue : (n : ℕ) (j : Job) → (select_queue n j).priority ≡ j.priority
priority-select_queue n j = elim (Bool-cases (leb n j.queue_id)) [
  | inl e ↦ ground (arith, e)
  | inr e ↦ ground (arith, e)
]

guard : (a c z : ℕ) → a ≢ 0 → c ≢ 0 → z ≢ 0 → (a == 0 || (c == 0 || z == 0)) ≡ false
guard a c z ha hc hz = ground arith

module _ (s : Sched) (a : ℕ) (queue : Queue) where
  -- The state after the submission, where `xs` was the list.
  abbrev pub submitted : List ℕ → Sched
  submitted xs =
      let j = select_queue s.num_queues (s.job a) in appended a j queue xs (put_job a j s)

  abbrev pub head_for : ℕ
  head_for = pending_of queue (select_queue s.num_queues (s.job a)).priority

  Valid-submit :
      (h : Trace)
      → Valid s a queue
      → sched_submit_job a s h
        ≡ submit_to_queue a
            (select_queue s.num_queues (s.job a))
            (s.queues (select_queue s.num_queues (s.job a)).queue_id)
            s
            h
  unfolding sched_submit_job
  Valid-submit h v =
      if_false _ _ (guard a (s.job a).commands (s.job a).cmd_size v.there v.commands v.cmd_size)

  pub sched_submit_job-submitted :
      (xs : List ℕ) (h : Trace)
      → Valid s a queue
      → IsList s.links head_for xs
      → Outside a (head_for ∷ xs)
      → is_poison a ≡ false
      → (sched_submit_job a s h ≡ done ((ok, submitted xs), wake sched_wait ∷ h))
        × IsList (submitted xs).links head_for (xs ++ (a ∷ []))
  unfolding submit_to_queue
  sched_submit_job-submitted xs h v i out p =
      let j = select_queue s.num_queues (s.job a) in
      let added = list_add_tail-IsList s.links head_for xs a i out p in
      let put =
        enqueue_lem a j queue (put_job a j s) h xs
          (ground (arith, priority-select_queue s.num_queues (s.job a), v.priority)) added.0 in
      (Valid-submit h v ∙ ap (λ o. submit_to_queue a j o s h) v.queued_to ∙ put, added.1)
