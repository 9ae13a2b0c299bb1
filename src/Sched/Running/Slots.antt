-- ===== src/Sched/Running/Slots.antt =====
-- `pending_starts` of a queue: the starts that the hardware was given and has not answered.
use package.amdhardware_kernel.Common.{
  ℕ, zero, suc, ◌^◌, ◌≤◌, ◌<◌, ◌≡◌, refl, ap, ◌∙◌, sym, ◌⊎◌, inl, inr, not, Option, none, some,
  arith, ◌==◌, leb, ◌||◌, if_true, Bool-cases, Option-cases,
}
use mathlib.Core.Option.{some-injective}
use package.amdhardware_kernel.Bus.{Trace, Hw, Io, Status, ok, err}
use package.amdhardware_kernel.Ring.{Ring}
use package.amdhardware_kernel.Ring.Submit.{Kernel}
use package.amdhardware_kernel.Klist.{
  Links, Run, fault, unending, done, ◌&>◌, done-injective, list_del, search, update,
}
use package.amdhardware_kernel.Sched.{
  Sched, Queue, put_links, pending_of, num_priorities, job_is_ready,
}
use package.amdhardware_kernel.Sched.Running.{
  take_job, requeue, queue_submitted, queue_submit_job, start_job, process_priorities,
  process_queue,
}
use package.amdhardware_kernel.Sched.Running.Faults.{answer, queue_submit_job-room, requeued}

-- No more starts are pending than the queue is deep, and one is while a job runs.
pub record Slots (q : Queue) : Type 0 where
  pub bound : q.pending_starts ≤ q.queue_depth
  pub depth : q.queue_depth < 2 ^ 32
  pub used : (q.current_job ≡ 0) ⊎ (0 < q.pending_starts)

abbrev pub SlotsAt : ℕ → Sched → Type 0
SlotsAt i s = (q : Queue) → s.queues i ≡ some q → Slots q

put-SlotsAt :
    (i : ℕ) (f : ℕ → Option Queue) (q q' : Queue)
    → Slots q
    → update f i (some q) i ≡ some q'
    → Slots q'
put-SlotsAt i f q q' p e =
    rw (some-injective q' q (sym e ∙ if_true {b = i == i} (some q) (f i) (ground arith))) p

module _ (i : ℕ) (queue : Queue) (a : ℕ) (p : Slots queue)
    (room : queue.pending_starts < queue.queue_depth) where
  queue_submitted-SlotsAt :
      (s : Sched) (ret : Status) → SlotsAt i (queue_submitted i queue a s ret).1
  unfolding queue_submitted
  queue_submitted-SlotsAt s ok q e =
      put-SlotsAt i s.queues _ q
        (record {
          bound = ground (arith, room, p.depth);
          depth = p.depth;
          used = inr (ground (arith, room, p.depth));
        })
        e
  queue_submitted-SlotsAt s (err x) q e =
      put-SlotsAt i s.queues (record queue { current_job = 0 }) q
        (record { bound = p.bound; depth = p.depth; used = inl refl }) e

  module _ (hw : Hw) (space : Ring → Io ℕ) (kern : Kernel) (now : ℕ) where
    requeue-SlotsAt :
        (head : ℕ) (ret : Status) (s : Sched) (h : Trace) (s' : Sched) (h' : Trace)
        → SlotsAt i s
        → requeue hw space kern now head a ret s h ≡ done (s', h')
        → SlotsAt i s'
    unfolding requeue
    requeue-SlotsAt head ok s h s' h' w e q eq =
        w q (ap (λ (o : Sched × Trace). o.0.queues i) (done-injective e) ∙ eq)
    requeue-SlotsAt head (err x) s h s' h' w e q eq =
        w q (ap (λ (f : ℕ → Option Queue). f i) (sym (requeued s h _ s' h' e)) ∙ eq)

    take_job-SlotsAt :
        (priority : ℕ) (s : Sched) (h : Trace) (s' : Sched) (h' : Trace)
        → take_job hw space kern now i queue priority a s h ≡ done (s', h')
        → SlotsAt i s'
    unfolding take_job
    take_job-SlotsAt priority s h s' h' e = taken (list_del a s.links) e
      where
        taken :
            (r : Run Links)
            → (◌&>◌ {B = Sched × Trace} r λ l.
                let ((ret, s₁), h₁) =
                  queue_submit_job hw space kern i queue a now (put_links s l) h in
                requeue hw space kern now (pending_of queue priority) a ret s₁ h₁)
              ≡ done (s', h')
            → SlotsAt i s'
        taken fault e' = cc
        taken unending e' = cc
        taken (done l) e' =
            let s₀ = put_links s l in
            let started : Sched = record (start_job a now s₀) {
              cmd_ring = (answer i queue a hw space kern now s₀ h).0.1;
            } in
            requeue-SlotsAt (pending_of queue priority) _ _ _ s' h'
              (rw (queue_submit_job-room i queue a hw space kern now s₀ h room)
                (queue_submitted-SlotsAt started (answer i queue a hw space kern now s₀ h).0.0))
              e'

module _ (hw : Hw) (space : Ring → Io ℕ) (kern : Kernel) (now fuel i : ℕ) (s : Sched) (h : Trace)
    (s' : Sched) (h' : Trace) (w : SlotsAt i s) where
  module _ (queue : Queue) (there : s.queues i ≡ some queue)
      (room : queue.pending_starts < queue.queue_depth) where
    process_priorities-SlotsAt :
        (n : ℕ)
        → process_priorities hw space kern now fuel n i queue s h ≡ done (s', h')
        → SlotsAt i s'
    unfolding process_priorities
    process_priorities-SlotsAt zero e =
        λ q eq. w q (ap (λ (o : Sched × Trace). o.0.queues i) (done-injective e) ∙ eq)
    process_priorities-SlotsAt (suc n) e =
        go (process_priorities-SlotsAt n)
          (search s.links (pending_of queue n) (job_is_ready s) fuel) e
      where
        go :
            (process_priorities hw space kern now fuel n i queue s h ≡ done (s', h') → SlotsAt i s')
            → (r : Run (Option ℕ))
            → (◌&>◌ {B = Sched × Trace} r λ j. elim j [
              | none ↦ process_priorities hw space kern now fuel n i queue s h
              | some a ↦ take_job hw space kern now i queue n a s h
            ])
              ≡ done (s', h')
            → SlotsAt i s'
        go lower fault e' = cc
        go lower unending e' = cc
        go lower (done none) e' = lower e'
        go lower (done (some a)) e' =
            take_job-SlotsAt i queue a (w queue there) room hw space kern now n s h s' h' e'

  -- If the starts pending on a queue are at most its depth, a depth below 2^32, and at least one
  -- is pending while a job runs, then so it is when mgpu_sched_process_queue returns, whatever the
  -- submission answers.
  pub process_queue-SlotsAt :
      process_queue hw space kern now fuel i s h ≡ done (s', h') → SlotsAt i s'
  unfolding process_queue
  process_queue-SlotsAt e = elim (Option-cases (s.queues i)) [
    | inl n ↦ stays (ground (arith, n, e))
    | inr (queue, n) ↦
        elim (Bool-cases
          (not (queue.current_job == 0) || leb queue.queue_depth queue.pending_starts)) [
            | inl b ↦ stays (ground (arith, n, b, e))
            | inr b ↦
                process_priorities-SlotsAt queue n (ground (arith, b)) num_priorities
                  (ground (arith, n, b, e))
          ]
  ]
    where
      stays : ◌≡◌ {A = Run (Sched × Trace)} (done (s, h)) (done (s', h')) → SlotsAt i s'
      stays e' q eq = w q (ap (λ (o : Sched × Trace). o.0.queues i) (done-injective e') ∙ eq)
