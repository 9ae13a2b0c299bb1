-- ===== src/Sched/Tests.antt =====
-- A scheduler with one queue, whose lists are empty, and a job at 0x5000.
use package.amdhardware_kernel.Common.{
  ℕ, ◌<◌, ◌≡◌, ◌≢◌, ◌⊎◌, inl, inr, refl, sym, ap, ◌∙◌, Bool, true, false, none, some, List, [], ◌∷◌,
  arith, ◌==◌, ◌&&◌, if◌then◌else◌, if_true, length, replicate, Bool-cases,
}
use mathlib.Core.Option.{some-injective}
use package.amdhardware_kernel.Bus.{Trace, Hw, Io, wake, sched_wait, ok}
use package.amdhardware_kernel.Ring.{Ring, ring_wait_space, wait_space, ring_write, ring_kick}
use package.amdhardware_kernel.Ring.Submit.{
  Kernel, submit_commands, submit_copied, submit_dwords, submit_granted, submit_fence,
  submit_fence_granted, submit_kick, submit_to, cmd_ring_of,
}
use package.amdhardware_kernel.Klist.{
  Links, Run, fault, unending, done, is_poison, put_between, search, walk, list_add_tail,
  search_from, walk_from, list_add, list_del, list_move_tail,
}
use package.amdhardware_kernel.Klist.Rings.{Outside, IsList, list_add_tail-IsList}
use package.amdhardware_kernel.Sched.{
  Sched, Queue, Job, new_job, pending_of, job_is_ready, dependents_of,
}
use package.amdhardware_kernel.Sched.Setup.{new_queue}
use package.amdhardware_kernel.Sched.Calls.{sched_submit_job, sched_cancel_job, sched_timeout_work}
use package.amdhardware_kernel.Sched.Running.{
  take_job, requeue, queue_submit_job, queue_submitted, process_priorities, irq_complete,
  satisfy_all, process_queue, queue_irq_handler, job_complete,
}
use package.amdhardware_kernel.Sched.Running.Slots.{SlotsAt, process_queue-SlotsAt}
use package.amdhardware_kernel.Sched.Running.Faults.{deleted}
use package.amdhardware_kernel.Sched.Calls.Submission.{Valid, submitted, head_for}
use package.amdhardware_kernel.Sched.Calls.Parking.{Parking}
use package.amdhardware_kernel.Sched.Calls.Parking.Submitted.{submitted-waits, with_job}
use package.amdhardware_kernel.Sched.Calls.Endless.{Listed, submitted-unending, On}
use package.amdhardware_kernel.Sched.Calls.Cancel.{sched_cancel_job-faults}

abbrev own_links : Links
own_links = record { next = λ x. x; prev = λ x. x }

abbrev queue : Queue
queue = new_queue 0x3000 0

abbrev first_job : Job
first_job = record (new_job 2 50) { commands = 0x7000; cmd_size = 8 }

abbrev start : Sched
start = record {
  links = own_links;
  job = λ a. first_job;
  dep = λ d. record { job = 0x5000; dep_job = 0x6000 };
  queues = λ i. if i == 0 then some queue else none;
  num_queues = 1;
  stop_sched = false;
  next_job_id = 2;
  all_jobs = 0x1000;
  completed_jobs = 0x2000;
  total_jobs = 0;
  total_runtime_ns = 0;
  cmd_ring = none;
}

-- The job as `mgpu_job_alloc` leaves it.
abbrev alloced : Sched
alloced = record start { links = put_between 0x5000 0x1000 0x1000 own_links }

abbrev idle : Hw
idle h r = 0

abbrev spacious : Ring → Io ℕ
spacious r h = (100, h)

abbrev kern : Kernel
kern = record {
  pow2 = record { is_power_of_2 = λ n. true; roundup_pow_of_two = λ n. n };
  alloc = record { kzalloc = true; dma_alloc = none };
  kmalloc = true;
  user = some (11 ∷ 12 ∷ []);
}

list_add_tail-IsList_example :
    (list_add_tail 0x5000 0x1000 own_links ≡ done (put_between 0x5000 0x1000 0x1000 own_links))
    × IsList (put_between 0x5000 0x1000 0x1000 own_links) 0x1000 (0x5000 ∷ [])
list_add_tail-IsList_example =
    list_add_tail-IsList own_links 0x1000 [] 0x5000
      (record { forth = refl; back = refl; apart = (tt, tt); sound = (refl, tt) })
      (ground arith, tt) refl

only_queue : (i : ℕ) (q : Queue) → start.queues i ≡ some q → (i ≡ 0) × (q ≡ queue)
only_queue i q e = elim (Bool-cases (i == 0)) [
  | inl b ↦
      (ground (arith, b), some-injective q queue (sym e ∙ if_true {b = i == 0} (some queue) none b))
  | inr b ↦ absurd (ground (arith, e, b))
]

abbrev no_jobs : ℕ → ℕ → List ℕ
no_jobs i p = []

start-Parking : Parking start no_jobs
start-Parking = record {
  ring = λ i p q e lt. record {
    forth = refl;
    back = refl;
    apart = (tt, tt);
    sound =
        (ap (λ (t : Queue). is_poison (pending_of t p)) (only_queue i q e).1 ∙ ground arith, tt);
  };
  parked = λ i p. tt;
  away = λ i p q j r q' e e' ne.
      ((different i p q j r q' (only_queue i q e) (only_queue j q' e') ne, tt), tt);
}
  where
    different :
        (i p : ℕ) (q : Queue) (j r : ℕ) (q' : Queue)
        → (i ≡ 0) × (q ≡ queue)
        → (j ≡ 0) × (q' ≡ queue)
        → (i ≢ j) ⊎ (p ≢ r)
        → pending_of q' r ≢ pending_of q p
    different i p q j r q' (ei, eq) (ej, eq') ne f = elim ne [
      | inl n ↦ n (ei ∙ sym ej)
      | inr n ↦ n (ground (arith, f, ap (λ (t : Queue). t.addr) eq, ap (λ (t : Queue). t.addr) eq'))
    ]

start-Valid : Valid start 0x5000 queue
start-Valid = record {
  there = ground arith;
  commands = ground arith;
  cmd_size = ground arith;
  queued_to = refl;
  priority = omega arith;
}

fresh : (i p : ℕ) (q : Queue) → start.queues i ≡ some q → Outside 0x5000 (pending_of q p ∷ [])
fresh i p q e = (ground (arith, ap (λ (t : Queue). t.addr) (only_queue i q e).1), tt)

submitted-waits_example :
    (sched_submit_job 0x5000 start []
      ≡ done ((ok, submitted start 0x5000 queue []), wake sched_wait ∷ []))
    × ((i : ℕ) (h : Trace)
        → process_queue idle spacious kern 60 2 i (submitted start 0x5000 queue []) h
          ≡ done (submitted start 0x5000 queue [], h))
submitted-waits_example =
    submitted-waits start 0x5000 queue no_jobs start-Parking start-Valid fresh refl idle spacious
      kern 60 2 [] at_most
  where
    at_most : (i p : ℕ) → length (with_job no_jobs 0 1 0x5000 i p) < 2
    at_most i p = elim (Bool-cases (i == 0 && p == 1)) [
      | inl b ↦ ground (arith, b)
      | inr b ↦ ground (arith, b)
    ]

own_queue : IsList alloced.links (head_for alloced 0x5000 queue) []
own_queue = record { forth = refl; back = refl; apart = (tt, tt); sound = (refl, tt) }

alloced-Listed : Listed alloced 0x5000 queue [] []
alloced-Listed = record {
  on_all = refl;
  sound = tt;
  new = (ground arith, tt);
  end_off = (ground arith, tt);
  all_off = (tt, (ground arith, tt));
}

alloced-Valid : Valid alloced 0x5000 queue
alloced-Valid = record {
  there = ground arith;
  commands = ground arith;
  cmd_size = ground arith;
  queued_to = refl;
  priority = omega arith;
}

other_id :
    (p : ℕ)
    → On alloced 0x5000 queue [] [] p
    → ((submitted alloced 0x5000 queue []).job p).job_id ≢ 77
other_id p o = elim (Bool-cases (p == 0x5000)) [
  | inl b ↦ ground (arith, b)
  | inr b ↦ ground (arith, b)
]

submitted-unending_example :
    (sched_submit_job 0x5000 alloced []
      ≡ done ((ok, submitted alloced 0x5000 queue []), wake sched_wait ∷ []))
    × ((in_reset : Bool) (fuel now : ℕ) (h : Trace)
        → sched_timeout_work in_reset fuel now (submitted alloced 0x5000 queue []) h ≡ unending)
    × ((fuel now : ℕ) (h : Trace)
        → sched_cancel_job fuel 77 now (submitted alloced 0x5000 queue []) h ≡ unending)
submitted-unending_example =
    submitted-unending alloced 0x5000 queue [] [] alloced-Valid own_queue (ground arith, tt) refl
      alloced-Listed 77 other_id []

found_first : search alloced.links 0x1000 (λ p. (alloced.job p).job_id == 2) 5 ≡ done (some 0x5000)
unfolding search_from
found_first = refl

no_dependents : walk (deleted 0x5000 alloced.links) (dependents_of 0x5000) 5 ≡ done []
unfolding walk_from
no_dependents = refl

sched_cancel_job-faults_example : sched_cancel_job 5 2 60 alloced [] ≡ fault
sched_cancel_job-faults_example =
    sched_cancel_job-faults alloced 2 0x5000 5 60 [] [] found_first refl no_dependents

-- The GPU has room, and the scheduler takes the job for a ring of eight dwords.
abbrev ring : Ring
ring = record {
  vaddr = replicate 8 0;
  dma_addr = 0x1000;
  size = 32;
  head = 0;
  tail = 1;
  queue_id = 0;
  submitted_cmds = 1;
  completed_cmds = 0;
  enabled = true;
  last_head = 0;
  last_activity = 0;
}

abbrev with_ring : Sched
with_ring = record start { cmd_ring = some ring }

-- What a run is done with.
result_of : Run (Sched × Trace) → Sched × Trace
result_of fault = (start, [])
result_of unending = (start, [])
result_of (done out) = out

abbrev taken : Sched × Trace
taken = result_of (take_job idle spacious kern 60 0 queue 1 0x5000 with_ring [])

takes : take_job idle spacious kern 60 0 queue 1 0x5000 with_ring [] ≡ done (taken.0, taken.1)
unfolding result_of take_job requeue queue_submit_job queue_submitted list_del submit_commands
    submit_copied submit_dwords submit_granted submit_fence submit_fence_granted submit_kick
    submit_to cmd_ring_of ring_wait_space wait_space ring_write ring_kick
takes = refl

abbrev running_queue : Queue
running_queue = record queue { pending_starts = 1; current_job = 0x5000; jobs_submitted = 1 }

taken_queue : taken.0.queues 0 ≡ some running_queue
unfolding result_of take_job requeue queue_submit_job queue_submitted list_del submit_commands
    submit_copied submit_dwords submit_granted submit_fence submit_fence_granted submit_kick
    submit_to cmd_ring_of ring_wait_space wait_space ring_write ring_kick
taken_queue = refl

taken_dependents : walk taken.0.links (dependents_of 0x5000) 5 ≡ done []
unfolding walk_from result_of take_job requeue queue_submit_job queue_submitted list_del
    submit_commands submit_copied submit_dwords submit_granted submit_fence submit_fence_granted
    submit_kick submit_to cmd_ring_of ring_wait_space wait_space ring_write ring_kick
taken_dependents = refl

start-SlotsAt : SlotsAt 0 with_ring
start-SlotsAt q e =
    rw (some-injective q queue (sym e))
      (record { bound = omega arith; depth = omega arith; used = inl refl })

-- A job in the state PENDING on the list of a queue, which the driver itself does not put there.
abbrev waiting : Sched
waiting = record with_ring { links = put_between 0x5000 0x3028 0x3028 own_links }

abbrev processed : Sched × Trace
processed = result_of (process_queue idle spacious kern 60 5 0 waiting [])

processes : process_queue idle spacious kern 60 5 0 waiting [] ≡ done (processed.0, processed.1)
unfolding result_of process_queue process_priorities search_from job_is_ready take_job requeue
    queue_submit_job queue_submitted list_del submit_commands submit_copied submit_dwords
    submit_granted submit_fence submit_fence_granted submit_kick submit_to cmd_ring_of
    ring_wait_space wait_space ring_write ring_kick
processes = refl

process_queue-SlotsAt_example : SlotsAt 0 processed.0
process_queue-SlotsAt_example =
    process_queue-SlotsAt idle spacious kern 60 5 0 waiting [] processed.0 processed.1 start-SlotsAt
      processes

-- A job that cannot be submitted goes back to the front of its list.
requeued_first :
    (result_of (
        take_job idle spacious
          (record kern { kmalloc = false })
          60
          0
          queue
          1
          0x5000
          with_ring
          [])).0.links.next
      0x3028
    ≡ 0x5000
unfolding result_of take_job requeue queue_submit_job queue_submitted list_del list_add
    submit_commands submit_copied submit_to cmd_ring_of
requeued_first = refl

abbrev running : Sched
running = record alloced { queues = λ i. if i == 0 then some running_queue else none }

irq_ends :
    ((result_of (queue_irq_handler idle 5 0 running_queue 70 running [])).0.job 0x5000).completion
    ≡ true
unfolding result_of queue_irq_handler irq_complete job_complete walk_from satisfy_all list_move_tail
    list_add_tail
irq_ends = refl
