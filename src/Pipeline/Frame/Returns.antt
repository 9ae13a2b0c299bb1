-- ===== src/Pipeline/Frame/Returns.antt =====
-- How `mgpu_pipeline_execute` ends, whatever other threads call between its stages.
use package.amdhardware_kernel.Common.{
  ℕ, ◌≡◌, refl, ap, ◌∙◌, true, false, List, some, arith, inl, ap, if_true, if_false, Bool-cases,
  inr,
}
use package.amdhardware_kernel.Bus.{Trace, Hw, Io, Status, ok, err}
use package.amdhardware_kernel.Pipeline.{PipelineMgr, pipe_idle}
use package.amdhardware_kernel.Pipeline.Running.{Running, Undisturbed, CountsKept}
use package.amdhardware_kernel.Pipeline.Stages.{execute_stage}
use package.amdhardware_kernel.Pipeline.Stages.Own.{Outcome, StageOwn, stage_lem}
use package.amdhardware_kernel.Pipeline.Frame.{
  is_idle, is_done, next_state, advance, pipeline_execute,
}
use package.amdhardware_kernel.Pipeline.Frame.Others.{Call, others, resets, calls-Kept}
use package.amdhardware_kernel.Pipeline.Frame.Loop.{
  Running-goes_on, Step, EndsIn, Ended, pipeline_execute-EndsIn,
}

module _ (hw : Hw) (ktime_get : Trace → ℕ) (schedule : Trace → List Call) where
  -- Between two stages only the state moves on, but for what the other threads' resets clear.
  pub advance-Kept :
      (mgr : PipelineMgr) (h : Trace)
      → is_idle (next_state mgr.state) ≡ false
      → let moved = (advance hw ktime_get (others hw ktime_get schedule) mgr h).0 in
        Undisturbed (record mgr { state = next_state mgr.state }) moved
        × (((t : Trace) → resets (schedule t) ≡ false) → CountsKept mgr moved)
  unfolding advance
  advance-Kept mgr h e = elim (Bool-cases (is_done (next_state mgr.state))) [
    | inl d ↦ rw (at_done d) (ground arith, λ r. ground arith)
    | inr d ↦
        let (u, k) = calls-Kept hw ktime_get (schedule h) moving h e in
        rw (at_break d) (u, λ r. let kept = k (r h) in ground arith)
  ]
    where
      moving : PipelineMgr
      moving = record mgr { state = next_state mgr.state }

      at_done :
          is_done (next_state mgr.state) ≡ true
          → advance hw ktime_get (others hw ktime_get schedule) mgr h ≡ (moving, h)
      at_done d = ap (λ (m : Io PipelineMgr). m h) (if_true _ _ d)

      at_break :
          is_done (next_state mgr.state) ≡ false
          → advance hw ktime_get (others hw ktime_get schedule) mgr h
            ≡ others hw ktime_get schedule moving h
      at_break d = ap (λ (m : Io PipelineMgr). m h) (if_false _ _ d)

  module _ (count : ℕ) where
    abbrev Completed : PipelineMgr → Type 0
    Completed mgr = mgr.completed ≡ count

    abbrev AtEnd : Status → PipelineMgr → Type 0
    AtEnd ret mgr = Completed mgr × Outcome ret mgr.last_error_stage

    step_from :
        (mgr : PipelineMgr)
        → Running mgr.state
        → Completed mgr
        → (ran : (Status × PipelineMgr) × Trace) → StageOwn mgr ran.0.0 ran.0.1
        → Step hw ktime_get (others hw ktime_get schedule) Completed AtEnd mgr.state ran
    step_from mgr r c ((ok, after), h) (own, outcome) =
        let e = ap next_state own.state in
        let alive = ap is_idle e ∙ (Running-goes_on r).1 in
        let (u, k) = advance-Kept after h alive in (u.state ∙ e, u.completed ∙ own.completed ∙ c)
    step_from mgr r c ((err code, after), h) (own, outcome) = (own.completed ∙ c, outcome)

    pub execute-AtEnd :
        (mgr : PipelineMgr) (h : Trace)
        → mgr.state ≡ pipe_idle
        → Completed mgr
        → EndsIn
            (Ended AtEnd)
            (pipeline_execute hw ktime_get (others hw ktime_get schedule) mgr h).0
    execute-AtEnd mgr h e c =
        pipeline_execute-EndsIn hw ktime_get (others hw ktime_get schedule) Completed AtEnd
          (λ m h' r i.
            step_from m r i (execute_stage hw m.state m h') (stage_lem hw m.state m h' r))
          (λ m d i. (i, inl refl)) mgr h e c

  -- Whatever the device answers and whatever other threads call between the stages (draws, further
  -- executions, the monitor, flushes, stalls, resumes and resets of the statistics), a call of
  -- `mgpu_pipeline_execute` on an idle pipeline returns within the five rounds of its loop and leaves the
  -- pipeline idle. It returns 0, -ETIMEDOUT with the vertex fetch noted as the stage that failed, or -EIO
  -- with the shader noted; and `pipeline_complete` is never completed.
  pub pipeline_execute-returns :
      (mgr : PipelineMgr) (h : Trace)
      → mgr.state ≡ pipe_idle
      → (ret : Status) × (mgr' : PipelineMgr) × ((pipeline_execute hw ktime_get
            (others hw ktime_get schedule)
            mgr
            h).0
          ≡ some (ret, mgr'))
        × (mgr'.state ≡ pipe_idle)
        × (mgr'.completed ≡ mgr.completed)
        × Outcome ret mgr'.last_error_stage
  pipeline_execute-returns mgr h e =
      let (ret, mgr', done, (now, m, at, (completed, outcome))) =
        execute-AtEnd mgr.completed mgr h e refl in
      (
        ret,
        mgr',
        done,
        ap (λ (x : PipelineMgr). x.state) at,
        ap (λ (x : PipelineMgr). x.completed) at ∙ completed,
        rw at outcome,
      )
