-- ===== src/Sched/Calls/Parking/Submitted.antt =====
-- The lists of the queues after `mgpu_sched_submit_job`, and the rounds of the scheduler on them.
use package.amdhardware_kernel.Common.{
  ℕ, ◌<◌, ◌≡◌, ◌≢◌, ◌⊎◌, inl, inr, sym, ap, ap₂, ◌∙◌, false, ◌&&◌, some, List, [], ◌∷◌, ◌++◌, arith,
  ◌==◌, if◌then◌else◌, if_true, if_false, length, Bool-cases,
}
use mathlib.Core.Option.{some-injective}
use package.amdhardware_kernel.Bus.{Trace, Hw, Io, ok}
use package.amdhardware_kernel.Ring.{Ring}
use package.amdhardware_kernel.Ring.Submit.{Kernel}
use package.amdhardware_kernel.Klist.{done, is_poison}
use package.amdhardware_kernel.Klist.Rings.{
  Outside, last, IsList, list_add_tail-IsList, put_between-IsList, Outside-append,
}
use package.amdhardware_kernel.Sched.{Sched, Queue, Job, job_queued, pending_of, num_priorities}
use package.amdhardware_kernel.Sched.Running.{process_queue}
use package.amdhardware_kernel.Sched.Calls.{select_queue}
use package.amdhardware_kernel.Sched.Calls.Submission.{
  Valid, submitted, head_for, sched_submit_job-submitted, priority-select_queue,
}
use package.amdhardware_kernel.Sched.Calls.Parking.{Away, Queued, Parking, process_queue-parked}
use package.amdhardware_kernel.Sched.Calls.{sched_submit_job}
use package.amdhardware_kernel.Bus.{wake, sched_wait}

-- The lists with `a` at the end of one.
abbrev pub with_job : (ℕ → ℕ → List ℕ) → ℕ → ℕ → ℕ → ℕ → ℕ → List ℕ
with_job lists k r a i p = if i == k && p == r then lists k r ++ (a ∷ []) else lists i p

Away-append : (xs ys : List ℕ) (new : ℕ) → Away xs ys → Outside new ys → Away (xs ++ (new ∷ [])) ys
Away-append [] ys new a o = (o, tt)
Away-append (x ∷ xs) ys new a o = (a.0, Away-append xs ys new a.1 o)

append-Away : (xs ys : List ℕ) (new : ℕ) → Away xs ys → Outside new xs → Away xs (ys ++ (new ∷ []))
append-Away [] ys new a o = tt
append-Away (x ∷ xs) ys new a o =
    (Outside-append x ys new a.0 (λ e. o.0 (sym e)), append-Away xs ys new a.1 o.1)

Away-last : (a : ℕ) (xs ys : List ℕ) → Away (a ∷ xs) ys → Outside (last a xs) ys
Away-last a [] ys w = w.0
Away-last a (x ∷ xs) ys w = Away-last x xs ys w.1

Queued-map :
    (f g : ℕ → Job) (xs : List ℕ)
    → ((x : ℕ) → (f x).state ≡ job_queued → (g x).state ≡ job_queued)
    → Queued f xs
    → Queued g xs
Queued-map f g [] m d = tt
Queued-map f g (x ∷ xs) m d = (m x d.0, Queued-map f g xs m d.1)

Queued-append :
    (job : ℕ → Job) (xs : List ℕ) (a : ℕ)
    → Queued job xs
    → (job a).state ≡ job_queued
    → Queued job (xs ++ (a ∷ []))
Queued-append job [] a d e = (e, tt)
Queued-append job (x ∷ xs) a d e = (d.0, Queued-append job xs a d.1 e)

place_cases : (i k p r : ℕ) → ((i ≡ k) × (p ≡ r)) ⊎ ((i ≢ k) ⊎ (p ≢ r))
place_cases i k p r = elim (Bool-cases (i == k)) [
  | inl e ↦ elim (Bool-cases (p == r)) [
    | inl f ↦ inl (ground (arith, e), ground (arith, f))
    | inr f ↦ inr (inr (ground (arith, f)))
  ]
  | inr e ↦ inr (inl (ground (arith, e)))
]

with_job-here :
    (lists : ℕ → ℕ → List ℕ) (k r a i p : ℕ)
    → i ≡ k
    → p ≡ r
    → with_job lists k r a i p ≡ lists k r ++ (a ∷ [])
with_job-here lists k r a i p e f =
    if_true {b = i == k && p == r} _ (lists i p) (ground (arith, e, f))

with_job-there :
    (lists : ℕ → ℕ → List ℕ) (k r a i p : ℕ)
    → i ≡ k
    → p ≡ r
    → with_job lists k r a i p ≡ lists i p ++ (a ∷ [])
with_job-there lists k r a i p e f =
    with_job-here lists k r a i p e f ∙ ap₂ (λ i' p'. lists i' p' ++ (a ∷ [])) (sym e) (sym f)

with_job-elsewhere :
    (lists : ℕ → ℕ → List ℕ) (k r a i p : ℕ)
    → (i ≢ k) ⊎ (p ≢ r)
    → with_job lists k r a i p ≡ lists i p
with_job-elsewhere lists k r a i p (inl e) =
    if_false {b = i == k && p == r} (lists k r ++ (a ∷ [])) _ (ground (arith, e))
with_job-elsewhere lists k r a i p (inr e) =
    if_false {b = i == k && p == r} (lists k r ++ (a ∷ [])) _ (ground (arith, e))

flipped : (i k p r : ℕ) → (i ≢ k) ⊎ (p ≢ r) → (k ≢ i) ⊎ (r ≢ p)
flipped i k p r (inl n) = inl (λ e. n (sym e))
flipped i k p r (inr n) = inr (λ e. n (sym e))

same_place : {i j k p r l : ℕ} → i ≡ k → p ≡ l → j ≡ k → r ≡ l → (i ≢ j) ⊎ (p ≢ r) → ⊥
same_place e f e' f' (inl n) = n (e ∙ sym e')
same_place e f e' f' (inr n) = n (f ∙ sym f')

module _ (s : Sched) (a : ℕ) (queue : Queue) (lists : ℕ → ℕ → List ℕ) (park : Parking s lists)
    (v : Valid s a queue)
    (fresh : (i p : ℕ) (q : Queue) → s.queues i ≡ some q → Outside a (pending_of q p ∷ lists i p))
    (sound : is_poison a ≡ false) where
  abbrev selected : ℕ
  selected = (select_queue s.num_queues (s.job a)).queue_id

  abbrev level : ℕ
  level = (select_queue s.num_queues (s.job a)).priority

  abbrev next_lists : ℕ → ℕ → List ℕ
  next_lists = with_job lists selected level a

  abbrev after : Sched
  after = submitted s a queue (lists selected level)

  level-lt : level < num_priorities
  level-lt = ground (arith, priority-select_queue s.num_queues (s.job a), v.priority)

  after-IsList :
      (i p : ℕ) (q : Queue)
      → s.queues i ≡ some q
      → p < num_priorities
      → IsList after.links (pending_of q p) (next_lists i p)
  after-IsList i p q e lt = elim (place_cases i selected p level) [
    | inl (ei, ep) ↦
        let same = some-injective q queue (sym e ∙ ap s.queues ei ∙ v.queued_to) in
        let put =
          list_add_tail-IsList s.links (head_for s a queue) (lists selected level) a
            (park.ring selected level queue v.queued_to level-lt)
            (fresh selected level queue v.queued_to) sound in
        rw (with_job-here lists selected level a i p ei ep, same, ep) put.1
    | inr ne ↦
        let apart =
          park.away selected level queue i p q v.queued_to e (flipped i selected p level ne) in
        rw (with_job-elsewhere lists selected level a i p ne) (
          put_between-IsList s.links (pending_of q p) (lists i p) a
            (last (head_for s a queue) (lists selected level)) (head_for s a queue)
            (park.ring i p q e lt) (fresh i p q e)
            (Away-last (head_for s a queue) (lists selected level) (pending_of q p ∷ lists i p)
              apart)
            (λ eq. apart.0.0 (sym eq)))
  ]

  after_states : (x : ℕ) → (s.job x).state ≡ job_queued → (after.job x).state ≡ job_queued
  after_states x e = elim (Bool-cases (x == a)) [
    | inl b ↦ ap (λ (j : Job). j.state) (if_true _ _ b)
    | inr b ↦ ap (λ (j : Job). j.state) (if_false _ _ b ∙ if_false _ _ b) ∙ e
  ]

  after_own : (after.job a).state ≡ job_queued
  after_own = ap (λ (j : Job). j.state) (if_true {b = a == a} _ _ (ground arith))

  after-Queued : (i p : ℕ) → Queued after.job (next_lists i p)
  after-Queued i p =
      let old = Queued-map s.job after.job (lists i p) after_states (park.parked i p) in
      elim (place_cases i selected p level) [
        | inl (ei, ep) ↦
            rw (with_job-there lists selected level a i p ei ep)
              (Queued-append after.job (lists i p) a old after_own)
        | inr ne ↦ rw (with_job-elsewhere lists selected level a i p ne) old
      ]

  after-Away :
      (i p : ℕ) (q : Queue) (j r : ℕ) (q' : Queue)
      → s.queues i ≡ some q
      → s.queues j ≡ some q'
      → (i ≢ j) ⊎ (p ≢ r)
      → Away (pending_of q p ∷ next_lists i p) (pending_of q' r ∷ next_lists j r)
  after-Away i p q j r q' e e' ne =
      let old = park.away i p q j r q' e e' ne in
      elim (place_cases i selected p level) [
        | inl (ei, ep) ↦ elim (place_cases j selected r level) [
          | inl (ej, er) ↦ absurd (same_place ei ep ej er ne)
          | inr nj ↦
              rw
                (
                  with_job-there lists selected level a i p ei ep,
                  with_job-elsewhere lists selected level a j r nj,
                )
                (Away-append (pending_of q p ∷ lists i p) _ a old (fresh j r q' e'))
        ]
        | inr ni ↦ elim (place_cases j selected r level) [
          | inl (ej, er) ↦
              rw
                (
                  with_job-elsewhere lists selected level a i p ni,
                  with_job-there lists selected level a j r ej er,
                )
                (append-Away (pending_of q p ∷ lists i p) (pending_of q' r ∷ lists j r) a old
                  (fresh i p q e))
          | inr nj ↦
              rw
                (
                  with_job-elsewhere lists selected level a i p ni,
                  with_job-elsewhere lists selected level a j r nj,
                )
                old
        ]
      ]

  -- A submission keeps the lists of the queues apart and full of jobs in the state QUEUED.
  pub submitted-Parking : Parking after next_lists
  submitted-Parking = record { ring = after-IsList; parked = after-Queued; away = after-Away }

  module _ (hw : Hw) (space : Ring → Io ℕ) (kern : Kernel) (now fuel : ℕ) where
    -- On queues whose pending lists are well formed, share no node and hold jobs in the state
    -- QUEUED only, mgpu_sched_submit_job of a valid job that is on none of them returns 0 and
    -- wakes the scheduler, and mgpu_sched_process_queue then runs no job: on every queue it
    -- returns with the state as it was, in more rounds than a list has entries.
    pub submitted-waits :
        (h : Trace)
        → ((i p : ℕ) → length (next_lists i p) < fuel)
        → (sched_submit_job a s h ≡ done ((ok, after), wake sched_wait ∷ h))
          × ((i : ℕ) (h' : Trace)
              → process_queue hw space kern now fuel i after h' ≡ done (after, h'))
    submitted-waits h enough = (
      (sched_submit_job-submitted s a queue (lists selected level) h v
          (park.ring selected level queue v.queued_to level-lt)
          (fresh selected level queue v.queued_to) sound).0,
      λ i h'.
          process_queue-parked hw space kern now fuel after h' next_lists submitted-Parking i
            (enough i),
    )
