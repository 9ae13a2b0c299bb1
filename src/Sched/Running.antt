-- ===== src/Sched/Running.antt =====
-- The part of kernel/drivers/gpu/mgpu/mgpu_sched.c that runs jobs: `mgpu_queue_submit_job`,
-- `mgpu_job_complete`, `mgpu_queue_irq_handler`, `mgpu_sched_process_queue` and a round of
-- `mgpu_sched_thread`.
pub mod Faults
pub mod Slots
use package.amdhardware_kernel.Common.{
  ℕ, zero, suc, ◌+◌, Bool, true, false, not, ◌&&◌, ◌||◌, Option, none, some, List, [], ◌∷◌, ◌==◌,
  leb, if◌then◌else◌, u64, u32, sub32, sub64, flag,
}
use package.amdhardware_kernel.Bus.{
  Trace, Hw, Io, read, wake, sched_wait, sleep, eio, ebusy, Status, ok, err,
}
use package.amdhardware_kernel.Bus.Regs.{reg_status, status_busy, status_error}
use package.amdhardware_kernel.Ring.{Ring}
use package.amdhardware_kernel.Ring.Submit.{Submit, Kernel, submit_commands, submit_flags_fence}
use package.amdhardware_kernel.Klist.{
  Run, fault, unending, done, ◌&>◌, list_add, list_del, list_move_tail, search, update, walk,
}
use package.amdhardware_kernel.Sched.{
  Sched, Queue, Job, job_completed, job_running, job_aborted, put_job, put_links, put_queue,
  pending_of, dependents_of, job_is_ready, num_priorities,
}

-- `submit` of `mgpu_queue_submit_job`
abbrev pub submit_of : Queue → Job → Submit
submit_of queue job = record {
  commands = job.commands;
  cmd_size = job.cmd_size;
  queue_id = queue.queue_id;
  flags = if job.fence_addr == 0 then 0 else submit_flags_fence;
  fence_addr = job.fence_addr;
  fence_value = job.fence_value;
}

-- What follows `mgpu_submit_commands` in it.
unfoldable pub queue_submitted : ℕ → Queue → ℕ → Sched → Status → Status × Sched
queue_submitted i queue a s ok =
    let queue' : Queue = record queue {
      current_job = a;
      pending_starts = u32 (queue.pending_starts + 1);
      jobs_submitted = u64 (queue.jobs_submitted + 1);
    } in
    (ok, put_queue i queue' s)
queue_submitted i queue a s (err e) = (
  err e,
  put_queue i (record queue { current_job = 0 })
      (put_job a (record (s.job a) { state = job_aborted }) s),
)

abbrev pub start_job : ℕ → ℕ → Sched → Sched
start_job a now s = put_job a (record (s.job a) { state = job_running; start_time = now }) s

-- `mgpu_queue_submit_job` of the queue `sched->queues[i]` and the job at `a`
unfoldable pub queue_submit_job :
    Hw → (Ring → Io ℕ) → Kernel → ℕ → Queue → ℕ → ℕ → Sched → Io (Status × Sched)
unfolding queue_submitted
queue_submit_job hw space kern i queue a now s h =
    let s' = start_job a now s in
    let ((ret, cmd_ring), h') =
      submit_commands hw space kern (submit_of queue (s.job a)) s.cmd_ring h in
    if leb queue.queue_depth queue.pending_starts
    then ((err ebusy, s), h)
    else (queue_submitted i queue a (record s' { cmd_ring = cmd_ring }) ret, h')

-- The body of the loop over the dependents: `atomic_dec_and_test`, and a wake-up at zero.
pub satisfy : ℕ → Sched → Trace → Sched × Trace
satisfy d s h =
    let a = (s.dep d).dep_job in
    let count = sub32 (s.job a).dep_count 1 in
    (
      put_job a (record (s.job a) { dep_count = count }) s,
      if count == 0 then wake sched_wait ∷ h else h,
    )

unfoldable pub satisfy_all : List ℕ → Sched → Trace → Sched × Trace
unfolding satisfy
satisfy_all [] s h = (s, h)
satisfy_all (d ∷ ds) s h = let (s', h') = satisfy d s h in satisfy_all ds s' h'

abbrev pub state_after : Status → Job → Job
state_after ok j = record j { state = job_completed }
state_after (err e) j = record j { state = job_aborted }

abbrev pub runtime_after : Status → Job → ℕ → ℕ
runtime_after ok j total = u64 (total + sub64 j.end_time j.start_time)
runtime_after (err e) j total = total

-- The state at the loop over the dependents.
abbrev pub ended : ℕ → Status → ℕ → Sched → Sched
ended a result now s =
    let j = state_after result (record (s.job a) { end_time = now; result = result }) in
    record s {
      job = update s.job a j;
      total_runtime_ns = runtime_after result j s.total_runtime_ns;
    }

abbrev pub complete : ℕ → Sched → Sched
complete a s = put_job a (record (s.job a) { completion = true }) s

-- `mgpu_job_complete`
unfoldable pub job_complete : ℕ → ℕ → Status → ℕ → Sched → Trace → Run (Sched × Trace)
job_complete fuel a result now s h = walk s.links (dependents_of a) fuel &> λ ds.
    let (s', h') = satisfy_all ds (ended a result now s) h in
    list_move_tail a s.completed_jobs s.links &> λ l. done (put_links (complete a s') l, h')

-- The queue after a job of it is done.
abbrev pub freed : Queue → Queue
freed queue = record queue {
  busy = false;
  pending_starts = sub32 queue.pending_starts 1;
  jobs_completed = u64 (queue.jobs_completed + 1);
  current_job = 0;
}

-- From `Check for errors` on.
unfoldable pub irq_complete : ℕ → ℕ → ℕ → ℕ → Sched → Trace → Run (Sched × Trace)
irq_complete fuel job status now s h =
    job_complete fuel job (if flag status status_error then err eio else ok) now s h &> λ out.
    done (out.0, wake sched_wait ∷ out.1)

-- `mgpu_queue_irq_handler` of the queue `sched->queues[i]`
unfoldable pub queue_irq_handler : Hw → ℕ → ℕ → Queue → ℕ → Sched → Trace → Run (Sched × Trace)
unfolding irq_complete
queue_irq_handler hw fuel i queue now s h =
    let (status, h') = read hw reg_status h in
    let busy = flag status status_busy in
    if not busy && not (queue.current_job == 0)
    then irq_complete fuel queue.current_job status now (put_queue i (freed queue) s) h'
    else done (put_queue i (record queue { busy = busy }) s, h')

module _ (hw : Hw) (space : Ring → Io ℕ) (kern : Kernel) (now : ℕ) where
  unfoldable pub requeue : ℕ → ℕ → Status → Sched → Trace → Run (Sched × Trace)
  requeue head a ok s h = done (s, h)
  requeue head a (err e) s h = list_add a head s.links &> λ l. done (put_links s l, h)

  -- The job at `a`, the first that is ready in the list of `priority`.
  unfoldable pub take_job : ℕ → Queue → ℕ → ℕ → Sched → Trace → Run (Sched × Trace)
  unfolding requeue
  take_job i queue priority a s h = list_del a s.links &> λ l.
      let ((ret, s'), h') = queue_submit_job hw space kern i queue a now (put_links s l) h in
      requeue (pending_of queue priority) a ret s' h'

  -- The priorities below `n`, from the highest to 0.
  unfoldable pub process_priorities : ℕ → ℕ → ℕ → Queue → Sched → Trace → Run (Sched × Trace)
  process_priorities fuel zero i queue s h = done (s, h)
  process_priorities fuel (suc n) i queue s h =
      search s.links (pending_of queue n) (job_is_ready s) fuel &> λ j. elim j [
        | none ↦ process_priorities fuel n i queue s h
        | some a ↦ take_job i queue n a s h
      ]

  -- `mgpu_sched_process_queue`
  unfoldable pub process_queue : ℕ → ℕ → Sched → Trace → Run (Sched × Trace)
  process_queue fuel i s h = elim (s.queues i) [
    | none ↦ done (s, h)
    | some queue ↦
        if not (queue.current_job == 0) || leb queue.queue_depth queue.pending_starts
        then done (s, h)
        else process_priorities fuel num_priorities i queue s h
  ]

module _ (hw : Hw) (space : Ring → Io ℕ) (kern : Kernel) (fuel : ℕ) where
  -- The queues below `n`, from 0 on, in a round of the thread: `work_done`.
  unfoldable pub process_queues : ℕ → ℕ → Sched → Trace → Run ((Bool × Sched) × Trace)
  process_queues now zero s h = done ((false, s), h)
  process_queues now (suc n) s h = process_queues now n s h &> λ before.
      process_queue hw space kern now fuel n before.0.1 before.1 &> λ out. elim (out.0.queues n) [
        | none ↦ fault
        | some queue ↦ done ((before.0.0 || not (queue.current_job == 0), out.0), out.1)
      ]

  -- A round of `mgpu_sched_thread`; the sleep is up to 100 milliseconds.
  unfoldable pub sched_round : ℕ → Sched → Trace → Run (Sched × Trace)
  unfolding process_queues
  sched_round now s h = process_queues now s.num_queues s h &> λ out.
      done (out.0.1, if out.0.0 then out.1 else sleep 100 ∷ out.1)

  -- `mgpu_sched_thread`: the answers of `ktime_get` in the rounds until `kthread_should_stop`.
  unfoldable pub sched_thread : List ℕ → Sched → Trace → Run (Sched × Trace)
  unfolding sched_round
  sched_thread [] s h = done (s, h)
  sched_thread (now ∷ times) s h =
      if s.stop_sched
      then done (s, h)
      else (sched_round now s h &> λ out. sched_thread times out.0 out.1)
