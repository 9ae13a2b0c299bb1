-- ===== src/Sched/Setup.antt =====
-- What sets kernel/drivers/gpu/mgpu/mgpu_sched.c up and takes it down: `mgpu_queue_create`,
-- `mgpu_queue_destroy`, `mgpu_sched_init`, `mgpu_sched_fini` and `mgpu_sched_get_stats`.
mod Tests
use package.amdhardware_kernel.Common.{
  ℕ, zero, suc, ◌+◌, ◌*◌, Bool, true, false, Option, none, some, List, [], ◌∷◌, ◌==◌, leb, ltb, not,
  if◌then◌else◌, flag,
}
use package.amdhardware_kernel.Bus.{
  Trace, wake, sched_wait, schedule_timeout, cancel_timeout, start_thread, stop_thread, enomem,
  ecanceled, Errno, Status, ok, err,
}
use package.amdhardware_kernel.Bus.Regs.{cap_multi_queue, max_queues}
use package.amdhardware_kernel.Ring.{Ring}
use package.amdhardware_kernel.Klist.{
  Links, Run, fault, unending, done, ◌&>◌, update, init_list_head, is_poison, list_del,
}
use package.amdhardware_kernel.Sched.{
  Sched, Queue, put_links, put_queue, pending_of, num_priorities, new_job, job_free,
}
use package.amdhardware_kernel.Sched.Running.{job_complete}

abbrev pub init_heads : ℕ → Queue → Links → Links
init_heads zero queue l = l
init_heads (suc n) queue l = init_list_head (pending_of queue n) (init_heads n queue l)

-- The queue of `mgpu_queue_create` at an address.
abbrev pub new_queue : ℕ → ℕ → Queue
new_queue addr queue_id = record {
  addr = addr;
  queue_id = queue_id;
  queue_depth = 16;
  pending_starts = 0;
  busy = false;
  current_job = 0;
  jobs_submitted = 0;
  jobs_completed = 0;
}

-- `mgpu_queue_create` for `sched->queues[i]` with the answer of `kzalloc`
pub queue_create : Option ℕ → ℕ → Sched → Option Sched
queue_create none i s = none
queue_create (some addr) i s =
    let queue = new_queue addr i in
    some (put_links (put_queue i queue s) (init_heads num_priorities queue s.links))

module _ (fuel now : ℕ) where
  -- The loop of `mgpu_queue_destroy` over one list, from the node `p` on.
  pub cancel_from : ℕ → ℕ → ℕ → Sched → Trace → Run (Sched × Trace)
  unfolding list_del job_complete
  cancel_from head zero p s h = unending
  cancel_from head (suc n) p s h =
      if p == head
      then done (s, h)
      else if is_poison p
      then fault
      else (list_del p s.links
          &> (λ l. job_complete fuel p (err ecanceled) now (put_links s l) h)
          &> λ out. cancel_from head n (s.links.next p) out.0 out.1)

  -- The lists of the priorities below `n`, from 0 on.
  pub cancel_pending : ℕ → Queue → Sched → Trace → Run (Sched × Trace)
  unfolding cancel_from
  cancel_pending zero queue s h = done (s, h)
  cancel_pending (suc n) queue s h = cancel_pending n queue s h &> λ out.
      let head = pending_of queue n in cancel_from head fuel (out.0.links.next head) out.0 out.1

  -- `mgpu_queue_destroy` without `kfree`
  pub queue_destroy : Option Queue → Sched → Trace → Run (Sched × Trace)
  queue_destroy none s h = done (s, h)
  queue_destroy (some queue) s h = cancel_pending num_priorities queue s h

  -- The queues below `n`, from 0 on.
  pub destroy_queues : ℕ → Sched → Trace → Run (Sched × Trace)
  destroy_queues zero s h = done (s, h)
  destroy_queues (suc n) s h =
      destroy_queues n s h &> λ out. queue_destroy (out.0.queues n) out.0 out.1

  -- A loop of `mgpu_sched_fini` over the jobs that remain, from the node `p` on.
  pub free_jobs_from : ℕ → ℕ → ℕ → Sched → Run Sched
  unfolding job_free
  free_jobs_from head zero p s = unending
  free_jobs_from head (suc n) p s =
      if p == head
      then done s
      else if is_poison p
      then fault
      else (job_free fuel p s &> free_jobs_from head n (s.links.next p))

  -- `mgpu_sched_fini` of a scheduler with a thread; `mdev->scheduler` is NULL after it.
  pub sched_fini : Sched → Trace → Run Trace
  unfolding free_jobs_from
  sched_fini s h =
      let s' : Sched = record s { stop_sched = true } in
      destroy_queues max_queues s' (stop_thread ∷ cancel_timeout ∷ wake sched_wait ∷ h) &> λ out.
      free_jobs_from out.0.all_jobs fuel (out.0.links.next out.0.all_jobs) out.0
      &> (λ s₂. free_jobs_from s₂.completed_jobs fuel (s₂.links.next s₂.completed_jobs) s₂)
      &> λ s₃. done out.1

abbrev pub min : ℕ → ℕ → ℕ
min a b = if leb a b then a else b

-- The scheduler that `mgpu_sched_init` starts from: `all_jobs` and `completed_jobs` are the
-- addresses of its heads, `caps` and `num_queues` the device's.
abbrev pub new_sched : Links → ℕ → ℕ → ℕ → ℕ → Option Ring → Sched
new_sched l all_jobs completed_jobs caps num_queues cmd_ring = record {
  links = init_list_head completed_jobs (init_list_head all_jobs l);
  job = λ a. new_job 0 0;
  dep = λ d. record { job = 0; dep_job = 0 };
  queues = λ i. none;
  num_queues = if flag caps cap_multi_queue then min num_queues max_queues else 1;
  stop_sched = false;
  next_job_id = 1;
  all_jobs = all_jobs;
  completed_jobs = completed_jobs;
  total_jobs = 0;
  total_runtime_ns = 0;
  cmd_ring = cmd_ring;
}

-- The queues below `n`, with the answers of `kzalloc`: whether all were made.
pub create_queues : (ℕ → Option ℕ) → ℕ → Sched → Bool × Sched
unfolding queue_create
create_queues kzalloc zero s = (true, s)
create_queues kzalloc (suc n) s =
    let rest = create_queues kzalloc n s in
    let made = queue_create (kzalloc n) n rest.1 in
    if rest.0 then elim made [ none ↦ (false, rest.1) | some s' ↦ (true, s') ] else rest

-- The label `err_queues`
pub init_failed : ℕ → ℕ → Errno → Sched → Trace → Run ((Status × Option Sched) × Trace)
init_failed fuel now e s h =
    destroy_queues fuel now max_queues s h &> λ out. done ((err e, none), out.1)

-- `mgpu_sched_init` after the scheduler is allocated, with the answers of `kzalloc` and
-- `kthread_create`; the new `mdev->scheduler`.
pub sched_init :
    ℕ → ℕ → (ℕ → Option ℕ) → Status → Sched → Trace → Run ((Status × Option Sched) × Trace)
unfolding init_failed
sched_init fuel now kzalloc thread s h =
    let (made, s') = create_queues kzalloc s.num_queues s in
    if not made then init_failed fuel now enomem s' h else elim thread [
      | ok ↦ done ((ok, some s'), schedule_timeout ∷ start_thread ∷ h)
      | err e ↦ init_failed fuel now e s' h
    ]

-- `struct mgpu_sched_stats` and its entries
pub record QueueStats : Type 0 where
  pub jobs_submitted : ℕ
  pub jobs_completed : ℕ
  pub pending_jobs : ℕ
  pub queue_depth : ℕ

pub record SchedStats : Type 0 where
  pub total_jobs : ℕ
  pub total_runtime_ns : ℕ
  pub num_queues : ℕ
  pub queue_stats : ℕ → Option QueueStats

abbrev pub stats_of : Option Queue → Option QueueStats
stats_of none = none
stats_of (some q) = some (record {
  jobs_submitted = q.jobs_submitted;
  jobs_completed = q.jobs_completed;
  pending_jobs = q.pending_starts;
  queue_depth = q.queue_depth;
})

-- `mgpu_sched_get_stats`; an entry that stays zero is `none`.
pub sched_get_stats : Sched → SchedStats
sched_get_stats s = record {
  total_jobs = s.total_jobs;
  total_runtime_ns = s.total_runtime_ns;
  num_queues = s.num_queues;
  queue_stats = λ i. if ltb i s.num_queues then stats_of (s.queues i) else none;
}
