-- ===== src/Sched.antt =====
-- kernel/drivers/gpu/mgpu/mgpu_sched.c: jobs, their dependencies and the scheduler's state. A job, a
-- dependency and a queue stand at an address, 0 for NULL; the list node of a job or of a dependency
-- is its first field, so it has the same address, and the heads inside a structure stand at the
-- offsets that a 64-bit build gives them.
pub mod Running
pub mod Calls
pub mod Setup
mod Tests
use package.amdhardware_kernel.Common.{
  ℕ, zero, suc, ◌+◌, ◌*◌, Bool, true, false, ◌&&◌, Option, none, some, ◌==◌, if◌then◌else◌, u32,
  u64, sub32,
}
use package.amdhardware_kernel.Bus.{einval, enomem, Status, ok, err}
use package.amdhardware_kernel.Ring.{Ring}
use package.amdhardware_kernel.Klist.{
  Links, update, init_list_head, list_add_tail, list_del, is_poison, Run, fault, unending, done,
  ◌&>◌,
}

-- MGPU_PRIORITY_NORMAL and MGPU_NUM_PRIORITIES
abbrev pub priority_normal : ℕ
priority_normal = 1

abbrev pub num_priorities : ℕ
num_priorities = 4

pub data JobState : Type 0 where
  job_pending job_queued job_running job_completed job_aborted job_timeout : JobState

pub data JobType : Type 0 where
  type_draw type_compute type_dma type_fence : JobType

-- `struct mgpu_job`; `completion` is whether `complete` was called.
pub record Job : Type 0 where
  pub job_id : ℕ
  pub job_type : JobType
  pub priority : ℕ
  pub state : JobState
  pub commands : ℕ
  pub cmd_size : ℕ
  pub queue_id : ℕ
  pub dep_count : ℕ
  pub fence_addr : ℕ
  pub fence_value : ℕ
  pub submit_time : ℕ
  pub start_time : ℕ
  pub end_time : ℕ
  pub timeout_ms : ℕ
  pub completion : Bool
  pub result : Status

-- `&job->deps` and `&job->dependents`
abbrev pub deps_of : ℕ → ℕ
deps_of job = job + 64

abbrev pub dependents_of : ℕ → ℕ
dependents_of job = job + 80

-- `struct mgpu_job_dep`
pub record JobDep : Type 0 where
  pub job : ℕ
  pub dep_job : ℕ

-- `struct mgpu_queue`, which stands at `addr`; `current_job` is 0 for NULL.
pub record Queue : Type 0 where
  pub addr : ℕ
  pub queue_id : ℕ
  pub queue_depth : ℕ
  pub pending_starts : ℕ
  pub busy : Bool
  pub current_job : ℕ
  pub jobs_submitted : ℕ
  pub jobs_completed : ℕ

-- `&queue->pending[priority]`
abbrev pub pending_of : Queue → ℕ → ℕ
pending_of queue priority = queue.addr + 24 + 16 * priority

-- `struct mgpu_scheduler` with the memory that its lists lead to and the `cmd_ring` of its device;
-- `all_jobs` and `completed_jobs` are the addresses of those heads.
pub record Sched : Type 0 where
  pub links : Links
  pub job : ℕ → Job
  pub dep : ℕ → JobDep
  pub queues : ℕ → Option Queue
  pub num_queues : ℕ
  pub stop_sched : Bool
  pub next_job_id : ℕ
  pub all_jobs : ℕ
  pub completed_jobs : ℕ
  pub total_jobs : ℕ
  pub total_runtime_ns : ℕ
  pub cmd_ring : Option Ring

abbrev pub put_job : ℕ → Job → Sched → Sched
put_job a j s = record s { job = update s.job a j }

abbrev pub put_links : Sched → Links → Sched
put_links s l = record s { links = l }

abbrev pub put_queue : ℕ → Queue → Sched → Sched
put_queue i q s = record s { queues = update s.queues i (some q) }

-- The job of `mgpu_job_alloc`, with the number and the time given.
abbrev pub new_job : ℕ → ℕ → Job
new_job id now = record {
  job_id = id;
  job_type = type_draw;
  priority = priority_normal;
  state = job_pending;
  commands = 0;
  cmd_size = 0;
  queue_id = 0;
  dep_count = 0;
  fence_addr = 0;
  fence_value = 0;
  submit_time = now;
  start_time = 0;
  end_time = 0;
  timeout_ms = 10000;
  completion = false;
  result = ok;
}

-- `mgpu_job_alloc` with the answer of `kzalloc` and of `ktime_get`; the address of the job.
pub job_alloc : Option ℕ → ℕ → Sched → Run (Option ℕ × Sched)
job_alloc none now s = done (none, s)
job_alloc (some a) now s =
    let id = u64 (s.next_job_id + 1) in
    let l =
      init_list_head (dependents_of a) (init_list_head (deps_of a) (init_list_head a s.links)) in
    let s' : Sched = record s { next_job_id = id; job = update s.job a (new_job id now) } in
    list_add_tail a s.all_jobs l &> λ l'. done (some a, put_links s' l')

-- A `list_for_each_entry_safe` that takes every entry off its list, from the node `p` on.
pub del_from : ℕ → ℕ → ℕ → Links → Run Links
unfolding list_del
del_from head zero p l = unending
del_from head (suc fuel) p l =
    if p == head
    then done l
    else if is_poison p
    then fault
    else list_del p l &> del_from head fuel (l.next p)

-- `mgpu_job_free` without `kfree`
pub job_free : ℕ → ℕ → Sched → Run Sched
job_free fuel a s =
    list_del a s.links
    &> (λ l. del_from (deps_of a) fuel (l.next (deps_of a)) l)
    &> (λ l. del_from (dependents_of a) fuel (l.next (dependents_of a)) l)
    &> λ l. done (put_links s l)

-- The second half of `mgpu_job_add_dependency`: without memory it takes the node at NULL off a list.
pub add_dependent : Option ℕ → ℕ → ℕ → Sched → Run (Status × Sched)
add_dependent none job dep_job s = fault
add_dependent (some d) job dep_job s =
    let node : JobDep = record { job = dep_job; dep_job = job } in
    list_add_tail d (dependents_of dep_job) s.links &> λ l.
    done (ok, record s { dep = update s.dep d node; links = l })

-- `mgpu_job_add_dependency` with the answers of its two `kzalloc`
pub job_add_dependency : Option ℕ → Option ℕ → ℕ → ℕ → Sched → Run (Status × Sched)
unfolding add_dependent
job_add_dependency none dependent job dep_job s =
    done (if job == dep_job then err einval else err enomem, s)
job_add_dependency (some d) dependent job dep_job s =
    let node : JobDep = record { job = job; dep_job = dep_job } in
    let j : Job = record (s.job job) { dep_count = u32 ((s.job job).dep_count + 1) } in
    let s' : Sched = record s { dep = update s.dep d node; job = update s.job job j } in
    if job == dep_job
    then done (err einval, s)
    else (list_add_tail d (deps_of job) s.links &> λ l.
        add_dependent dependent job dep_job (put_links s' l))

abbrev pub is_pending : JobState → Bool
is_pending job_pending = true
is_pending _ = false

abbrev pub is_running : JobState → Bool
is_running job_running = true
is_running _ = false

-- PENDING or QUEUED, which `mgpu_sched_cancel_job` asks for
abbrev pub is_waiting : JobState → Bool
is_waiting job_pending = true
is_waiting job_queued = true
is_waiting _ = false

pub job_is_ready : Sched → ℕ → Bool
job_is_ready s a = (s.job a).dep_count == 0 && is_pending (s.job a).state
