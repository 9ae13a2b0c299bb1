-- ===== src/Sched/Running/Faults.antt =====
-- `mgpu_job_complete` of a job that `list_del` took off its list, as `mgpu_sched_process_queue` does
-- with a job that it submits.
use package.amdhardware_kernel.Common.{
  ℕ, ◌<◌, ◌≡◌, ◌≢◌, refl, ap, ◌∙◌, sym, ◌⊎◌, inl, inr, true, false, Option, some, List, arith, ◌==◌,
  ◌||◌, flag, Bool-cases, leb, if◌then◌else◌, ◌∷◌, if_true, if_false, not, ◌&&◌,
}
use mathlib.Core.Option.{some-injective}
use package.amdhardware_kernel.Bus.{rd, wake, sched_wait, eio, Trace, Hw, Io, Status, ok, err}
use package.amdhardware_kernel.Bus.Regs.{reg_status, status_busy, status_error}
use package.amdhardware_kernel.Ring.{Ring}
use package.amdhardware_kernel.Ring.Submit.{Kernel, submit_commands}
use package.amdhardware_kernel.Klist.{
  Links, Run, fault, done, walk, is_poison, joined, list_poison1, list_poison2, list_del, ◌&>◌,
  unending, done-injective, list_move_tail, update,
}
use package.amdhardware_kernel.Sched.{Sched, Queue, put_links, put_queue, dependents_of, pending_of}
use package.amdhardware_kernel.Sched.Running.{
  irq_complete, freed, job_complete, queue_irq_handler, take_job, requeue, queue_submitted,
  queue_submit_job, submit_of, start_job,
}

pub list_move_tail-poisoned :
    (p head : ℕ) (l : Links) → is_poison (l.next p) ≡ true → list_move_tail p head l ≡ fault
unfolding list_move_tail
list_move_tail-poisoned p head l e = ground (arith, e)

pub job_complete-poisoned :
    (fuel a : ℕ) (result : Status) (now : ℕ) (s : Sched) (h : Trace) (ds : List ℕ)
    → walk s.links (dependents_of a) fuel ≡ done ds
    → is_poison (s.links.next a) ≡ true
    → job_complete fuel a result now s h ≡ fault
unfolding job_complete
job_complete-poisoned fuel a result now s h ds w e =
    ground (arith, w, list_move_tail-poisoned a s.completed_jobs s.links e)

-- The links that `list_del` leaves.
abbrev pub deleted : ℕ → Links → Links
deleted p l = record {
  next = update (joined p l).next p list_poison1;
  prev = update (joined p l).prev p list_poison2;
}

pub list_del-cases :
    (p : ℕ) (l : Links) → (list_del p l ≡ fault) ⊎ (list_del p l ≡ done (deleted p l))
unfolding list_del
list_del-cases p l = elim (Bool-cases (is_poison (l.next p) || is_poison (l.prev p))) [
  | inl e ↦ inl (ground (arith, e))
  | inr e ↦ inr (ground (arith, e))
]

pub deleted-poisoned : (p : ℕ) (l : Links) → is_poison ((deleted p l).next p) ≡ true
deleted-poisoned p l = ground arith

-- The running job of the queue, if there is one, is `a`, and is on no list.
abbrev pub OffList : ℕ → ℕ → Sched → Type 0
OffList i a s =
    (q : Queue)
    → s.queues i ≡ some q
    → (q.current_job ≡ 0) ⊎ ((q.current_job ≡ a) × (is_poison (s.links.next a) ≡ true))

pub requeued :
    (s : Sched) (h : Trace) (r : Run Links) (s' : Sched) (h' : Trace)
    → ◌&>◌ {B = Sched × Trace} r (λ l. done (put_links s l, h)) ≡ done (s', h')
    → s'.queues ≡ s.queues
requeued s h fault s' h' e = cc
requeued s h unending s' h' e = cc
requeued s h (done l) s' h' e = ap (λ (o : Sched × Trace). o.0.queues) (sym (done-injective e))

module _ (i : ℕ) (queue : Queue) (a : ℕ) where
  current :
      (f : ℕ → Option Queue) (q q' : Queue)
      → update f i (some q) i ≡ some q'
      → q'.current_job ≡ q.current_job
  current f q q' e =
      ap (λ (r : Queue). r.current_job)
        (some-injective q' q (sym e ∙ if_true {b = i == i} _ _ (ground arith)))

  requeue-OffList :
      (hw : Hw) (space : Ring → Io ℕ) (kern : Kernel) (now head : ℕ) (s : Sched) (h : Trace)
      (ret : Status) (s' : Sched) (h' : Trace)
      → is_poison (s.links.next a) ≡ true
      → requeue hw space kern now head a ret (queue_submitted i queue a s ret).1 h ≡ done (s', h')
      → OffList i a s'
  unfolding requeue queue_submitted
  requeue-OffList hw space kern now head s h ok s' h' p e q eq =
      let same = ap (λ (o : Sched × Trace). o.0) (done-injective e) in
      inr (
        current s.queues _ q (ap (λ (t : Sched). t.queues i) same ∙ eq),
        ap (λ (t : Sched). is_poison (t.links.next a)) (sym same) ∙ p,
      )
  requeue-OffList hw space kern now head s h (err x) s' h' p e q eq =
      let same = requeued (queue_submitted i queue a s (err x)).1 h _ s' h' e in
      inl (
        current s.queues (record queue { current_job = 0 }) q
          (ap (λ (f : ℕ → Option Queue). f i) (sym same) ∙ eq))

  pub queue_submitted-status :
      (s : Sched) (ret : Status) → (queue_submitted i queue a s ret).0 ≡ ret
  unfolding queue_submitted
  queue_submitted-status s ok = refl
  queue_submitted-status s (err e) = refl

  module _ (hw : Hw) (space : Ring → Io ℕ) (kern : Kernel) (now : ℕ) where
    -- The answer of `mgpu_submit_commands`.
    abbrev pub answer : Sched → Trace → (Status × Option Ring) × Trace
    answer s h = submit_commands hw space kern (submit_of queue (s.job a)) s.cmd_ring h

    pub queue_submit_job-room :
        (s : Sched) (h : Trace)
        → queue.pending_starts < queue.queue_depth
        → queue_submit_job hw space kern i queue a now s h ≡ (
          queue_submitted i queue a
              (record (start_job a now s) { cmd_ring = (answer s h).0.1 })
              (answer s h).0.0,
          (answer s h).1,
        )
    unfolding queue_submit_job
    queue_submit_job-room s h room =
        if_false {b = leb queue.queue_depth queue.pending_starts} _ _ (ground arith)

    submitted-OffList :
        (head : ℕ) (s : Sched) (h : Trace) (s' : Sched) (h' : Trace)
        → queue.pending_starts < queue.queue_depth
        → is_poison (s.links.next a) ≡ true
        → (let out = queue_submit_job hw space kern i queue a now s h in
            requeue hw space kern now head a out.0.0 out.0.1 out.1 ≡ done (s', h'))
        → OffList i a s'
    submitted-OffList head s h s' h' room p e =
        let started : Sched = record (start_job a now s) { cmd_ring = (answer s h).0.1 } in
        requeue-OffList hw space kern now head started (answer s h).1 (answer s h).0.0 s' h' p (
          ap
            (λ st.
              requeue hw space kern now head a st
                (queue_submitted i queue a started (answer s h).0.0).1 (answer s h).1)
            (sym (queue_submitted-status started (answer s h).0.0))
          ∙ ap (λ (o : (Status × Sched) × Trace). requeue hw space kern now head a o.0.0 o.0.1 o.1)
              (sym (queue_submit_job-room s h room))
          ∙ e)

    take_job-OffList :
        (priority : ℕ) (s : Sched) (h : Trace) (s' : Sched) (h' : Trace)
        → queue.pending_starts < queue.queue_depth
        → take_job hw space kern now i queue priority a s h ≡ done (s', h')
        → OffList i a s'
    unfolding take_job
    take_job-OffList priority s h s' h' room e = elim (list_del-cases a s.links) [
      | inl f ↦ absurd (ground (arith, f, e))
      | inr d ↦
          submitted-OffList (pending_of queue priority) (put_links s (deleted a s.links)) h s' h'
            room (deleted-poisoned a s.links) (ground (arith, d, e))
    ]

irq_complete-poisoned :
    (fuel a status now : ℕ) (s : Sched) (h : Trace) (ds : List ℕ)
    → walk s.links (dependents_of a) fuel ≡ done ds
    → is_poison (s.links.next a) ≡ true
    → irq_complete fuel a status now s h ≡ fault
unfolding irq_complete
irq_complete-poisoned fuel a status now s h ds w p =
    ap (λ r. ◌&>◌ {B = Sched × Trace} r (λ out. done (out.0, wake sched_wait ∷ out.1)))
      (job_complete-poisoned fuel a (if flag status status_error then err eio else ok) now s h ds w
        p)

irq-faults :
    (hw : Hw) (fuel i : ℕ) (queue : Queue) (now : ℕ) (s : Sched) (h : Trace) (ds : List ℕ)
    → queue.current_job ≢ 0
    → flag (hw h reg_status) status_busy ≡ false
    → walk s.links (dependents_of queue.current_job) fuel ≡ done ds
    → is_poison (s.links.next queue.current_job) ≡ true
    → queue_irq_handler hw fuel i queue now s h ≡ fault
unfolding queue_irq_handler
irq-faults hw fuel i queue now s h ds running idle w p =
    if_true {b = not (flag (hw h reg_status) status_busy) && not (queue.current_job == 0)}
      (irq_complete fuel queue.current_job (hw h reg_status) now (put_queue i (freed queue) s)
        (rd reg_status ∷ h))
      (done (
        put_queue i (record queue { busy = flag (hw h reg_status) status_busy }) s,
        rd reg_status ∷ h,
      ))
      (ground (arith, idle, running))
    ∙ irq_complete-poisoned fuel queue.current_job (hw h reg_status) now
        (put_queue i (freed queue) s) (rd reg_status ∷ h) ds w p

module _ (hw : Hw) (space : Ring → Io ℕ) (kern : Kernel) (now i : ℕ) (queue : Queue)
    (a priority : ℕ) where
  -- A job that mgpu_sched_process_queue takes from a pending list, on a queue with room, is on no
  -- list while it runs: when the queue interrupt handler then finds the device not busy, and the
  -- loop over the dependents of the job ends, it uses the poisoned links and faults.
  pub take_job-irq_faults :
      (s s' : Sched) (h h' h₂ : Trace) (queue' : Queue) (fuel : ℕ) (ds : List ℕ)
      → queue.pending_starts < queue.queue_depth
      → take_job hw space kern now i queue priority a s h ≡ done (s', h')
      → s'.queues i ≡ some queue'
      → queue'.current_job ≢ 0
      → flag (hw h₂ reg_status) status_busy ≡ false
      → walk s'.links (dependents_of a) fuel ≡ done ds
      → queue_irq_handler hw fuel i queue' now s' h₂ ≡ fault
  take_job-irq_faults s s' h h' h₂ queue' fuel ds room e eq running idle w =
      elim (take_job-OffList i queue a hw space kern now priority s h s' h' room e queue' eq) [
        | inl z ↦ absurd (running z)
        | inr (c, p) ↦
            irq-faults hw fuel i queue' now s' h₂ ds running idle
              (ap (λ j. walk s'.links (dependents_of j) fuel) c ∙ w)
              (ap (λ j. is_poison (s'.links.next j)) c ∙ p)
      ]
