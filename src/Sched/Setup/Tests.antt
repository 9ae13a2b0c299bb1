-- ===== src/Sched/Setup/Tests.antt =====
-- The life of a scheduler: it is made, takes two jobs and is taken down.
use package.amdhardware_kernel.Common.{
  ◌==◌, if◌then◌else◌, ℕ, ◌+◌, ◌*◌, ◌≡◌, refl, Bool, true, false, Option, none, some, [], ◌∷◌,
}
use package.amdhardware_kernel.Bus.{
  Trace, wake, sched_wait, schedule_timeout, cancel_timeout, start_thread, stop_thread,
  schedule_reset, sleep, enomem, einval, etimedout, Status, ok, err,
}
use package.amdhardware_kernel.Klist.{
  ◌&>◌, Run, fault, unending, done, search_from, walk_from, list_del, list_add_tail, list_move_tail,
}
use package.amdhardware_kernel.Schedule.{reset_schedule}
use package.amdhardware_kernel.Sched.{
  Sched, job_running, job_alloc, job_free, del_from, job_add_dependency, add_dependent, put_job,
}
use package.amdhardware_kernel.Sched.Running.{
  sched_thread, sched_round, process_queues, process_queue, process_priorities, job_complete,
  satisfy_all,
}
use package.amdhardware_kernel.Ring.Submit.{submit_commands}
use package.amdhardware_kernel.Sched.Calls.{
  submit_directly, SubmitArgs, Answers, enqueue, sched_submit_job, submit_to_queue, sched_wait_job,
  submit_finish, submit_alloced, sched_submit, check_timeout, check_timeouts, sched_timeout_work,
}
use package.amdhardware_kernel.Sched.Setup.{
  new_sched, queue_create, create_queues, sched_init, init_failed, cancel_from, cancel_pending,
  queue_destroy, destroy_queues, free_jobs_from, sched_fini, sched_get_stats,
}

abbrev blank : Sched
blank = new_sched (record { next = λ x. x; prev = λ x. x }) 0x1000 0x2000 256 2 none

abbrev at : ℕ → Option ℕ
at i = some (0x3000 + 0x100 * i)

abbrev ready : Sched
ready = (create_queues at 2 blank).1

made : sched_init 5 0 at ok blank [] ≡ done ((ok, some ready), schedule_timeout ∷ start_thread ∷ [])
unfolding sched_init create_queues queue_create
made = refl

-- Without memory for the second queue the first is taken down.
half_made :
    sched_init 5 0 (λ i. if i == 0 then some 0x3000 else none) ok blank []
    ≡ done ((err enomem, none), [])
unfolding sched_init create_queues queue_create init_failed destroy_queues queue_destroy
    cancel_pending cancel_from
half_made = refl

abbrev args : SubmitArgs
args = record {
  commands = 0x7000;
  cmd_size = 8;
  queue_id = 9;
  flags = 0;
  fence_addr = 0;
  fence_value = 0;
  priority = 0;
  timeout_ms = 0;
}

abbrev answers : Answers
answers = record {
  job_at = some 0x5000;
  commands_at = some 0x7100;
  opcode = 2;
  time = 50;
  completes = true;
}

fails : {A B : Type 0} → Run (A × B) → Bool
fails fault = true
fails unending = false
fails (done out) = false

result : Run (((Status × ℕ) × Sched) × Trace) → Option (Status × ℕ)
result (done out) = some out.0.0
result fault = none
result unending = none

state : Run (((Status × ℕ) × Sched) × Trace) → Sched
state (done out) = out.0.1
state fault = blank
state unending = blank

submits : result (sched_submit 5 answers args ready []) ≡ some (ok, 2)
unfolding result sched_submit job_alloc submit_alloced sched_submit_job submit_to_queue enqueue
    submit_finish sched_wait_job list_add_tail create_queues queue_create
submits = refl

-- Without memory for the commands the job is freed.
no_copy :
    result (sched_submit 5 (record answers { commands_at = none }) args ready [])
    ≡ some (err enomem, 0)
unfolding result sched_submit job_alloc submit_alloced job_free del_from list_del list_add_tail
    create_queues queue_create
no_copy = refl

-- `mgpu_sched_fini` faults on a job that still waits.
fini_faults :
    fails (sched_fini 9 60 (state (sched_submit 5 answers args ready [])) [] &> λ h. done (h, h))
    ≡ true
unfolding fails state sched_submit job_alloc submit_alloced sched_submit_job submit_to_queue enqueue
    submit_finish sched_wait_job list_add_tail create_queues queue_create sched_fini destroy_queues
    queue_destroy cancel_pending cancel_from list_del job_complete walk_from satisfy_all
    list_move_tail
fini_faults = refl

fini_empty : sched_fini 5 60 ready [] ≡ done (stop_thread ∷ cancel_timeout ∷ wake sched_wait ∷ [])
unfolding create_queues queue_create sched_fini destroy_queues queue_destroy cancel_pending
    cancel_from free_jobs_from
fini_empty = refl

-- Without memory for the second node `mgpu_job_add_dependency` uses NULL.
dependency_faults : job_add_dependency (some 0x8000) none 0x5000 0x6000 ready ≡ fault
unfolding job_add_dependency add_dependent list_add_tail create_queues queue_create
dependency_faults = refl

on_itself :
    job_add_dependency (some 0x8000) (some 0x8100) 0x5000 0x5000 ready ≡ done (err einval, ready)
unfolding job_add_dependency
on_itself = refl

-- A job that has run for longer than it may is given up, and the reset is scheduled.
late :
    (check_timeouts false 20000000000
      (0x5000 ∷ [])
      (put_job 0x5000 (record (ready.job 0x5000) { state = job_running; timeout_ms = 10000 }) ready)
      []).1
    ≡ schedule_reset ∷ []
unfolding check_timeouts check_timeout reset_schedule create_queues queue_create
late = refl

no_timeouts : sched_timeout_work false 5 60 ready [] ≡ done (ready, schedule_timeout ∷ [])
unfolding sched_timeout_work walk_from check_timeouts create_queues queue_create
no_timeouts = refl

waited : (sched_wait_job false 0x5000 ready).0 ≡ err etimedout
unfolding sched_wait_job
waited = refl

stats : (sched_get_stats ready).num_queues ≡ 2
unfolding sched_get_stats create_queues queue_create
stats = refl

idle_round :
    sched_thread
      (λ h r. 0)
      (λ r h. (0, h))
      (record {
        pow2 = record { is_power_of_2 = λ n. true; roundup_pow_of_two = λ n. n };
        alloc = record { kzalloc = true; dma_alloc = none };
        kmalloc = true;
        user = none;
      })
      5
      (60 ∷ [])
      ready
      []
    ≡ done (ready, sleep 100 ∷ [])
unfolding sched_thread sched_round process_queues process_queue process_priorities search_from
    create_queues queue_create
idle_round = refl

-- Without a scheduler the arguments go to `mgpu_submit_commands` as they are.
no_scheduler :
    submit_directly
      (λ h r. 0)
      (λ r h. (0, h))
      (record {
        pow2 = record { is_power_of_2 = λ n. true; roundup_pow_of_two = λ n. n };
        alloc = record { kzalloc = true; dma_alloc = none };
        kmalloc = true;
        user = none;
      })
      (record args { queue_id = 16 })
      none
      []
    ≡ ((err einval, none), [])
unfolding submit_directly submit_commands
no_scheduler = refl
