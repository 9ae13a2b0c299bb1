-- ===== src/Sched/Calls/Endless.antt =====
-- The loops over `all_jobs` after `mgpu_sched_submit_job`, which links the node that `mgpu_job_alloc`
-- put there into the list of a queue.
use package.amdhardware_kernel.Common.{
  ℕ, ◌≡◌, ◌≢◌, ◌⊎◌, inl, inr, refl, sym, Bool, false, List, [], ◌∷◌, ◌++◌, arith, ◌==◌,
}
use package.amdhardware_kernel.Bus.{Trace, wake, sched_wait, ok}
use package.amdhardware_kernel.Klist.{unending, done, is_poison}
use package.amdhardware_kernel.Klist.Rings.{
  Chain, Outside, Sound, last, IsList, Among, Among-split, Among-end, Among-Outside, Among-Sound,
  Chain-next, Chain-update, Outside-append,
}
use package.amdhardware_kernel.Klist.Searches.{Trap, search_from-trapped, walk_from-trapped}
use package.amdhardware_kernel.Sched.{Sched, Queue}
use package.amdhardware_kernel.Sched.Calls.{sched_submit_job, sched_cancel_job, sched_timeout_work}
use package.amdhardware_kernel.Sched.Calls.Submission.{
  Valid, submitted, head_for, sched_submit_job-submitted,
}

-- Before the submission `all_jobs` leads through `xs` to the job `a`, and the queue holds `ys`; the
-- lists share no node.
pub record Listed (s : Sched) (a : ℕ) (queue : Queue) (xs ys : List ℕ) : Type 0 where
  pub on_all : Chain s.links.next s.all_jobs xs a
  pub sound : Sound xs
  pub new : Outside a (s.all_jobs ∷ xs)
  pub end_off : Outside (last (head_for s a queue) ys) (s.all_jobs ∷ xs)
  pub all_off : Outside s.all_jobs xs × Outside s.all_jobs (head_for s a queue ∷ ys)

module _ (s : Sched) (a : ℕ) (queue : Queue) (xs ys : List ℕ) where
  abbrev pub cycle : List ℕ
  cycle = head_for s a queue ∷ (ys ++ (a ∷ []))

  abbrev pub On : ℕ → Type 0
  On p = Among p xs ⊎ Among p cycle

  On-end : (p : ℕ) → Among p (xs ++ (a ∷ [])) → On p
  On-end p i = elim (Among-split p xs a i) [
    | inl j ↦ inl j
    | inr e ↦ inr (inr (Among-end p ys a e))
  ]

  On-cycle : (p : ℕ) → Among p ((ys ++ (a ∷ [])) ++ (head_for s a queue ∷ [])) → On p
  On-cycle p i = elim (Among-split p (ys ++ (a ∷ [])) (head_for s a queue) i) [
    | inl j ↦ inr (inr j)
    | inr e ↦ inr (inl e)
  ]

  module _ (d : Listed s a queue xs ys)
      (i : IsList (submitted s a queue ys).links (head_for s a queue) (ys ++ (a ∷ []))) where
    turned : Chain (submitted s a queue ys).links.next s.all_jobs xs a
    turned =
        Chain-update _ s.all_jobs xs a (last (head_for s a queue) ys) a d.end_off
          (Chain-update s.links.next s.all_jobs xs a a (head_for s a queue) d.new d.on_all)

    trapped : Trap (submitted s a queue ys).links s.all_jobs On
    trapped = record {
      next_in = λ p o. elim o [
        | inl j ↦ On-end _ (Chain-next _ s.all_jobs xs a p turned (inr j))
        | inr j ↦
            On-cycle _
              (Chain-next _ (head_for s a queue) (ys ++ (a ∷ [])) (head_for s a queue) p i.forth j)
      ];
      not_head = λ p o. elim o [
        | inl j ↦ Among-Outside p s.all_jobs xs j d.all_off.0
        | inr j ↦ Among-Outside p s.all_jobs cycle j (
            Outside-append s.all_jobs (head_for s a queue ∷ ys) a d.all_off.1
              (λ e. d.new.0 (sym e)))
      ];
      no_poison = λ p o. elim o [
        | inl j ↦ Among-Sound p xs j d.sound
        | inr j ↦ Among-Sound p cycle j i.sound
      ];
    }

    start-On : On ((submitted s a queue ys).links.next s.all_jobs)
    start-On = On-end _ (Chain-next _ s.all_jobs xs a s.all_jobs turned (inl refl))

    sched_timeout_work-unending :
        (in_reset : Bool) (fuel now : ℕ) (h : Trace)
        → sched_timeout_work in_reset fuel now (submitted s a queue ys) h ≡ unending
    unfolding sched_timeout_work
    sched_timeout_work-unending in_reset fuel now h = ground (
      arith,
      walk_from-trapped (submitted s a queue ys).links s.all_jobs On trapped fuel _ start-On,
    )

    sched_cancel_job-unending :
        (id : ℕ)
        → ((p : ℕ) → On p → ((submitted s a queue ys).job p).job_id ≢ id)
        → (fuel now : ℕ) (h : Trace)
        → sched_cancel_job fuel id now (submitted s a queue ys) h ≡ unending
    unfolding sched_cancel_job
    sched_cancel_job-unending id other fuel now h =
        let never =
          search_from-trapped (submitted s a queue ys).links s.all_jobs On
            (λ p. ((submitted s a queue ys).job p).job_id == id) trapped
            (λ p o. ground (arith, other p o)) fuel _ start-On in
        ground (arith, never)

  module _ (v : Valid s a queue) (i : IsList s.links (head_for s a queue) ys)
      (fresh : Outside a (head_for s a queue ∷ ys)) (no_poison : is_poison a ≡ false)
      (d : Listed s a queue xs ys) where
    -- For a valid job on all_jobs, as mgpu_job_alloc leaves it there, and a well-formed pending
    -- list that shares no node with all_jobs: mgpu_sched_submit_job returns 0, and from then on
    -- neither the loop of the timeout work ends, in any number of rounds, nor that of
    -- mgpu_sched_cancel_job for a number that none of the entries it goes through has.
    pub submitted-unending :
        (id : ℕ)
        → ((p : ℕ) → On p → ((submitted s a queue ys).job p).job_id ≢ id)
        → (h : Trace)
        → (sched_submit_job a s h ≡ done ((ok, submitted s a queue ys), wake sched_wait ∷ h))
          × ((in_reset : Bool) (fuel now : ℕ) (h' : Trace)
              → sched_timeout_work in_reset fuel now (submitted s a queue ys) h' ≡ unending)
          × ((fuel now : ℕ) (h' : Trace)
              → sched_cancel_job fuel id now (submitted s a queue ys) h' ≡ unending)
    submitted-unending id other h =
        let done_ok = sched_submit_job-submitted s a queue ys h v i fresh no_poison in
        (
          done_ok.0,
          sched_timeout_work-unending d done_ok.1,
          sched_cancel_job-unending d done_ok.1 id other,
        )
