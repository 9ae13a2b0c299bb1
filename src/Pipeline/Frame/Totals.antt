-- ===== src/Pipeline/Frame/Totals.antt =====
-- The statistics of the pipeline over a whole frame, with other threads between its stages.
use package.amdhardware_kernel.Common.{ℕ, ◌≡◌, ◌≢◌, refl, ap, ◌∙◌, sym, false, arith, some, List}
use mathlib.Core.Path.{subst}
use package.amdhardware_kernel.Bus.{Trace, Hw, Status, ok, err}
use package.amdhardware_kernel.Pipeline.{
  PipelineMgr, PipelineState, PipelineStage, RasterizerState, pipe_idle,
}
use package.amdhardware_kernel.Pipeline.Running.{
  Running, fetching, shading, rasterizing, coloring, CountsKept,
}
use package.amdhardware_kernel.Pipeline.Stages.{execute_stage}
use package.amdhardware_kernel.Pipeline.Stages.Own.{StageOwn, stage_lem}
use package.amdhardware_kernel.Pipeline.Stages.Counted.{
  Counted, pending_in, pending_after, stage-Counted,
}
use package.amdhardware_kernel.Pipeline.Frame.{is_idle, next_state, advance, pipeline_execute}
use package.amdhardware_kernel.Pipeline.Frame.Others.{Call, others, resets}
use package.amdhardware_kernel.Pipeline.Frame.Loop.{Running-goes_on, Step, pipeline_execute-EndsIn}
use package.amdhardware_kernel.Pipeline.Frame.Returns.{advance-Kept}

pub Counted-kept :
    {pending : ℕ} {before after : PipelineMgr}
    → CountsKept before after
    → Counted pending before
    → Counted pending after
Counted-kept {before} {after} k c = ground (arith, items 0, items 2, items 3, items 4)
  where
    items : (i : ℕ) → (after.stages i).processed_items ≡ (before.stages i).processed_items
    items i = ap (λ (stages : ℕ → PipelineStage). (stages i).processed_items) k.stages

pending-next :
    {state : PipelineState} (before after : PipelineMgr)
    → Running state
    → before.rasterizer ≡ after.rasterizer
    → pending_after state before ≡ pending_in (next_state state) after
pending-next before after fetching e = refl
pending-next before after shading e = refl
pending-next before after rasterizing e = ap (λ (r : RasterizerState). r.fragments_generated) e
pending-next before after coloring e = refl

module _ (hw : Hw) (ktime_get : Trace → ℕ) (schedule : Trace → List Call) where
  module _ (no_resets : (h : Trace) → resets (schedule h) ≡ false) where
    abbrev Inv : PipelineMgr → Type 0
    Inv mgr = Counted (pending_in mgr.state mgr) mgr

    abbrev AtEnd : Status → PipelineMgr → Type 0
    AtEnd ret mgr = Counted 0 mgr

    step_from :
        (mgr : PipelineMgr)
        → Running mgr.state
        → (ran : (Status × PipelineMgr) × Trace) → StageOwn mgr ran.0.0 ran.0.1
        → Counted (pending_after mgr.state ran.0.1) ran.0.1
          × (ran.0.0 ≢ ok → pending_after mgr.state ran.0.1 ≡ 0)
        → Step hw ktime_get (others hw ktime_get schedule) Inv AtEnd mgr.state ran
    step_from mgr r ((ok, after), h) (own, outcome) (c, none_pending) =
        let e = ap next_state own.state in
        let alive = ap is_idle e ∙ (Running-goes_on r).1 in
        let (u, kept) = advance-Kept hw ktime_get schedule after h alive in
        let moved = (advance hw ktime_get (others hw ktime_get schedule) after h).0 in
        let k = kept no_resets in
        let same = pending-next after moved r (sym k.rasterizer) in
        (u.state ∙ e, rw (u.state ∙ e) (subst (λ n. Counted n moved) same (Counted-kept k c)))
    step_from mgr r ((err code, after), h) (own, outcome) (c, none_pending) =
        subst (λ n. Counted n after) (none_pending (λ e. cc)) c

    -- Whatever the device answers and whatever other threads call between the stages but a reset of the
    -- statistics, a call of `mgpu_pipeline_execute` on an idle pipeline keeps the totals equal to the
    -- items that the stages have processed and, when it has ended, the fragments equal to the pixels,
    -- also when a stage fails.
    pub pipeline_execute-Counted :
        (mgr : PipelineMgr) (h : Trace)
        → mgr.state ≡ pipe_idle
        → Counted 0 mgr
        → (ret : Status) × (mgr' : PipelineMgr) × ((pipeline_execute hw ktime_get
              (others hw ktime_get schedule)
              mgr
              h).0
            ≡ some (ret, mgr'))
          × Counted 0 mgr'
    pipeline_execute-Counted mgr h e c =
        let (ret, mgr', done, (now, m, at, counted)) =
          pipeline_execute-EndsIn hw ktime_get (others hw ktime_get schedule) Inv AtEnd
            (λ m h' r i.
              step_from m r (execute_stage hw m.state m h') (stage_lem hw m.state m h' r)
                (stage-Counted hw m.state m h' r i))
            (λ m d i. rw (sym (ap (λ s. pending_in s m) d)) i) mgr h e (ground arith) in
        (ret, mgr', done, rw at (ground arith))
