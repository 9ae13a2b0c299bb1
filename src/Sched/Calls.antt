-- ===== src/Sched/Calls.antt =====
-- The calls that the rest of the driver makes to kernel/drivers/gpu/mgpu/mgpu_sched.c: submitting,
-- waiting for and cancelling a job, the timeout work and the statistics.
pub mod Submission
pub mod Parking
pub mod Endless
pub mod Cancel
use package.amdhardware_kernel.Common.{
  ℕ, zero, suc, ◌+◌, ◌-◌, ◌/◌, ◌*◌, ◌^◌, Bool, true, false, not, ◌&&◌, ◌||◌, Option, none, some,
  List, [], ◌∷◌, ◌==◌, ltb, leb, if◌then◌else◌, u64, sub64, flag,
}
use package.amdhardware_kernel.Bus.{
  Trace, Hw, Io, wake, sched_wait, schedule_timeout, einval, enoent, enomem, etimedout, einprogress,
  ecanceled, Status, ok, err,
}
use package.amdhardware_kernel.Bus.Regs.{cmd_draw, cmd_compute, cmd_dma}
use package.amdhardware_kernel.Schedule.{reset_schedule}
use package.amdhardware_kernel.Ring.{Ring}
use package.amdhardware_kernel.Ring.Submit.{Kernel, Submit, submit_commands, submit_flags_sync}
use package.amdhardware_kernel.Klist.{
  Run, fault, unending, done, ◌&>◌, list_add_tail, list_del, search, walk,
}
use package.amdhardware_kernel.Sched.{
  Sched, Queue, Job, JobType, type_draw, type_compute, type_dma, type_fence, job_queued,
  job_aborted, job_timeout, put_job, put_links, pending_of, is_running, is_waiting, num_priorities,
  priority_normal, job_alloc, job_free,
}
use package.amdhardware_kernel.Sched.Running.{job_complete}

-- The queue that `mgpu_sched_submit_job` selects for a type.
abbrev pub queue_for : JobType → ℕ → ℕ
queue_for type_compute num_queues = if ltb 1 num_queues then 1 else 0
queue_for type_dma num_queues = if ltb 2 num_queues then 2 else 0
queue_for _ num_queues = 0

abbrev pub select_queue : ℕ → Job → Job
select_queue num_queues j =
    if leb num_queues j.queue_id then record j { queue_id = queue_for j.job_type num_queues } else j

-- The job under the lock of its queue; `pending` has no entry from `num_priorities` on.
unfoldable pub enqueue : ℕ → Job → Queue → Sched → Trace → Run ((Status × Sched) × Trace)
enqueue a j queue s h =
    if leb num_priorities j.priority
    then fault
    else (list_add_tail a (pending_of queue j.priority) s.links &> λ l.
        let s' : Sched = record s { total_jobs = u64 (s.total_jobs + 1) } in
        done
          ((ok, put_links (put_job a (record j { state = job_queued }) s') l), wake sched_wait ∷ h))

-- From `queue = sched->queues[job->queue_id]` on.
unfoldable pub submit_to_queue :
    ℕ → Job → Option Queue → Sched → Trace → Run ((Status × Sched) × Trace)
unfolding enqueue
submit_to_queue a j none s h = done ((err einval, put_job a j s), h)
submit_to_queue a j (some queue) s h = enqueue a j queue (put_job a j s) h

-- `mgpu_sched_submit_job` of the job at `a`, 0 for NULL
unfoldable pub sched_submit_job : ℕ → Sched → Trace → Run ((Status × Sched) × Trace)
unfolding submit_to_queue
sched_submit_job a s h =
    let j = select_queue s.num_queues (s.job a) in
    if a == 0 || ((s.job a).commands == 0 || (s.job a).cmd_size == 0)
    then done ((err einval, s), h)
    else submit_to_queue a j (s.queues j.queue_id) s h

-- `mgpu_sched_wait_job` with the answer of `wait_for_completion_timeout`
unfoldable pub sched_wait_job : Bool → ℕ → Sched → Status × Sched
sched_wait_job false a s = (err etimedout, put_job a (record (s.job a) { state = job_timeout }) s)
sched_wait_job true a s = ((s.job a).result, s)

-- What `mgpu_sched_cancel_job` does with the entry it has found.
pub cancel_found : ℕ → ℕ → ℕ → Sched → Trace → Run ((Status × Sched) × Trace)
cancel_found fuel a now s h =
    if is_waiting (s.job a).state
    then (list_del a s.links &> λ l.
        let s' = put_links (put_job a (record (s.job a) { state = job_aborted }) s) l in
        job_complete fuel a (err ecanceled) now s' h &> λ out. done ((ok, out.0), out.1))
    else done ((err einprogress, s), h)

-- `mgpu_sched_cancel_job`
pub sched_cancel_job : ℕ → ℕ → ℕ → Sched → Trace → Run ((Status × Sched) × Trace)
unfolding cancel_found
sched_cancel_job fuel id now s h =
    search s.links s.all_jobs (λ a. (s.job a).job_id == id) fuel &> λ j. elim j [
      | none ↦ done ((err enoent, s), h)
      | some a ↦ cancel_found fuel a now s h
    ]

-- `ktime_to_ms` of a difference as an unsigned word
abbrev pub ktime_to_ms : ℕ → ℕ
ktime_to_ms t = if ltb t (2 ^ 63) then t / 1000000 else u64 (2 ^ 64 - (2 ^ 64 - t) / 1000000)

-- The body of the loop of `mgpu_sched_timeout_work`; `in_reset` is the flag of the reset code.
unfoldable pub check_timeout : Bool → ℕ → ℕ → Sched → Trace → Sched × Trace
check_timeout in_reset now a s h =
    let late = ltb (s.job a).timeout_ms (ktime_to_ms (sub64 now (s.job a).start_time)) in
    if is_running (s.job a).state && late
    then (put_job a (record (s.job a) { state = job_timeout }) s, (reset_schedule in_reset h).1)
    else (s, h)

unfoldable pub check_timeouts : Bool → ℕ → List ℕ → Sched → Trace → Sched × Trace
check_timeouts in_reset now [] s h = (s, h)
check_timeouts in_reset now (a ∷ rest) s h =
    let (s', h') = check_timeout in_reset now a s h in check_timeouts in_reset now rest s' h'

-- `mgpu_sched_timeout_work`
unfoldable pub sched_timeout_work : Bool → ℕ → ℕ → Sched → Trace → Run (Sched × Trace)
sched_timeout_work in_reset fuel now s h = walk s.links s.all_jobs fuel &> λ jobs.
    let (s', h') = check_timeouts in_reset now jobs s h in done (s', schedule_timeout ∷ h')

-- `struct mgpu_submit_args`
pub record SubmitArgs : Type 0 where
  pub commands : ℕ
  pub cmd_size : ℕ
  pub queue_id : ℕ
  pub flags : ℕ
  pub fence_addr : ℕ
  pub fence_value : ℕ
  pub priority : ℕ
  pub timeout_ms : ℕ

-- `a ?: b`
abbrev pub or_else : ℕ → ℕ → ℕ
or_else a b = if a == 0 then b else a

-- The type for the `opcode` of the first header, which a buffer of four bytes has.
abbrev pub type_for : ℕ → JobType
type_for opcode =
    if opcode == cmd_draw
    then type_draw
    else if opcode == cmd_compute
    then type_compute
    else if opcode == cmd_dma
    then type_dma
    else type_draw

abbrev pub fill_job : SubmitArgs → ℕ → ℕ → Job → Job
fill_job args commands opcode j = record j {
  commands = commands;
  cmd_size = args.cmd_size;
  queue_id = args.queue_id;
  fence_addr = args.fence_addr;
  fence_value = args.fence_value;
  priority = or_else args.priority priority_normal;
  timeout_ms = or_else args.timeout_ms 10000;
  job_type = if leb 4 args.cmd_size then type_for opcode else j.job_type;
}

-- The answers of the allocators (`kzalloc`, `kmemdup`), of `ktime_get`, of
-- `wait_for_completion_timeout`, and the opcode in the copy.
pub record Answers : Type 0 where
  pub job_at : Option ℕ
  pub commands_at : Option ℕ
  pub opcode : ℕ
  pub time : ℕ
  pub completes : Bool

-- The result: the status with `args->job_id`, 0 where it is not set.
abbrev pub Submitted : Type 0
Submitted = (Status × ℕ) × Sched

-- What follows `mgpu_sched_submit_job`.
unfoldable pub submit_finish :
    ℕ → Bool → SubmitArgs → ℕ → Status → Sched → Trace → Run (Submitted × Trace)
submit_finish fuel completes args a (err e) s h =
    job_free fuel a s &> λ s'. done (((err e, 0), s'), h)
submit_finish fuel completes args a ok s h =
    let (ret, s') = sched_wait_job completes a s in
    if flag args.flags submit_flags_sync
    then done (((ret, (s.job a).job_id), s'), h)
    else done (((ok, (s.job a).job_id), s), h)

-- From `kmemdup` on.
unfoldable pub submit_alloced :
    ℕ → Answers → SubmitArgs → ℕ → Sched → Trace → Run (Submitted × Trace)
unfolding submit_finish
submit_alloced fuel ans args a s h = elim ans.commands_at [
  | none ↦ job_free fuel a s &> λ s'. done (((err enomem, 0), s'), h)
  | some c ↦ sched_submit_job a (put_job a (fill_job args c ans.opcode (s.job a)) s) h &> λ out.
      submit_finish fuel ans.completes args a out.0.0 out.0.1 out.1
]

-- `mgpu_sched_submit` on a device that has a scheduler
unfoldable pub sched_submit : ℕ → Answers → SubmitArgs → Sched → Trace → Run (Submitted × Trace)
unfolding submit_alloced
sched_submit fuel ans args s h = job_alloc ans.job_at ans.time s &> λ out. elim out.0 [
  | none ↦ done (((err enomem, 0), out.1), h)
  | some a ↦ submit_alloced fuel ans args a out.1 h
]

-- `mgpu_sched_submit` on a device that has none
unfoldable pub submit_directly :
    Hw → (Ring → Io ℕ) → Kernel → SubmitArgs → Option Ring → Io (Status × Option Ring)
submit_directly hw space kern args cmd_ring =
    submit_commands hw space kern
      (record {
        commands = args.commands;
        cmd_size = args.cmd_size;
        queue_id = args.queue_id;
        flags = args.flags;
        fence_addr = args.fence_addr;
        fence_value = args.fence_value;
      })
      cmd_ring
