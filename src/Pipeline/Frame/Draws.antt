-- ===== src/Pipeline/Frame/Draws.antt =====
-- Draws one after the other, with no other thread, on a device that is neither busy nor halted.
use package.amdhardware_kernel.Common.{
  ℕ, zero, suc, ◌+◌, ◌*◌, ◌/◌, ◌^◌, ◌<◌, ◌≡◌, ◌≢◌, refl, ap, sym, ◌∙◌, false, arith, some, none,
  u32, u64, if_false,
}
use mathlib.Core.Path.{subst}
use package.amdhardware_kernel.Bus.{Trace, Hw, Io, ◌>>=◌, pure, Status, ok, err}
use package.amdhardware_kernel.Pipeline.{
  PipelineMgr, PipelineState, pipe_idle, pipe_done, config_vertex_fetch,
}
use package.amdhardware_kernel.Pipeline.Running.{Running, fetching, shading, rasterizing, coloring}
use package.amdhardware_kernel.Pipeline.Stages.{execute_stage}
use package.amdhardware_kernel.Pipeline.Stages.Own.{StageOwn, stage_lem}
use package.amdhardware_kernel.Pipeline.Stages.Tally.{
  Ready, Tally, TallyAt, AfterStage, generated_next, stage-Tally,
}
use package.amdhardware_kernel.Pipeline.Frame.{
  Frame, DrawCall, configured, next_state, advance, pipeline_execute, draw_fetching, draw_with,
}
use package.amdhardware_kernel.Pipeline.Frame.Loop.{Step, EndsIn, Ended, pipeline_execute-EndsIn}

abbrev alone : PipelineMgr → Io PipelineMgr
alone = pure

-- A draw that is not refused, and runs before the call returns.
pub record IsSync (draw : DrawCall) : Type 0 where
  pub buffer : draw.vertex_buffer ≢ 0
  pub vertices : draw.vertex_count ≢ 0
  pub sync : draw.async ≡ false

pub record Totals (p f x g : ℕ) (mgr : PipelineMgr) : Type 0 where
  pub primitives : mgr.total_primitives ≡ p
  pub fragments : mgr.total_fragments ≡ f
  pub pixels : mgr.total_pixels ≡ x
  pub generated : mgr.rasterizer.fragments_generated ≡ g

-- 1 + 2 + … + n
abbrev pub triangular : ℕ → ℕ
triangular zero = 0
triangular (suc n) = triangular n + suc n

-- The sums of one more frame do not wrap.
no_wrap :
    (batch n t : ℕ)
    → batch * 100 * suc n < 2 ^ 32
    → batch * 100 * (t + suc n) < 2 ^ 64
    → (batch * 100 * n < 2 ^ 32)
      × (batch * 100 * t < 2 ^ 64)
      × (u64 (batch * n + batch) ≡ batch * suc n)
      × (u32 (batch * 100 * n + u32 (batch * 100)) ≡ batch * 100 * suc n)
      × (u64 (batch * 100 * t + batch * 100 * suc n) ≡ batch * 100 * (t + suc n))
no_wrap batch n t small few = grind arith

advance-alone :
    (hw : Hw) (ktime_get : Trace → ℕ) (mgr : PipelineMgr) (h : Trace)
    → advance hw ktime_get alone mgr h ≡ (record mgr { state = next_state mgr.state }, h)
unfolding advance
advance-alone hw ktime_get mgr h = ground arith

module _ {hw : Hw} (ready : Ready hw) (ktime_get : Trace → ℕ) where
  module _ (count p f x g : ℕ) where
    abbrev Inv : PipelineMgr → Type 0
    Inv mgr = TallyAt count p f x g mgr.state mgr

    abbrev AtEnd : Status → PipelineMgr → Type 0
    AtEnd ret mgr = (ret ≡ ok) × TallyAt count p f x g pipe_done mgr

    to_next :
        {s : PipelineState} (after : PipelineMgr) (t : PipelineState)
        → Running s
        → AfterStage count p f x g s after
        → TallyAt count p f x g (next_state s) (record after { state = t })
    to_next after t fetching tally = ground arith
    to_next after t shading tally = ground arith
    to_next after t rasterizing tally = ground arith
    to_next after t coloring tally = ground arith

    step_from :
        (mgr : PipelineMgr)
        → Running mgr.state
        → (ran : (Status × PipelineMgr) × Trace) → StageOwn mgr ran.0.0 ran.0.1
        → (ran.0.0 ≡ ok) × AfterStage count p f x g mgr.state ran.0.1
        → Step hw ktime_get alone Inv AtEnd mgr.state ran
    step_from mgr r ((ok, after), h) (own, outcome) (e, t) =
        rw (advance-alone hw ktime_get after h) (
          ap next_state own.state,
          subst
              (λ s.
                TallyAt count p f x g (next_state s)
                  (record after { state = next_state after.state }))
              (sym own.state) (to_next after (next_state after.state) r t),
        )
    step_from mgr r ((err code, after), h) (own, outcome) (e, t) = cc

    pub execute-Tally :
        (mgr : PipelineMgr) (h : Trace)
        → mgr.state ≡ pipe_idle
        → Tally count p f x g mgr
        → EndsIn (Ended AtEnd) (pipeline_execute hw ktime_get alone mgr h).0
    execute-Tally mgr h e t =
        pipeline_execute-EndsIn hw ktime_get alone Inv AtEnd
          (λ m h' r i.
            step_from m r (execute_stage hw m.state m h') (stage_lem hw m.state m h' r)
              (stage-Tally ready count p f x g m.state m h' r i))
          (λ m d i. (refl, subst (λ s. TallyAt count p f x g s m) d i)) mgr h e (ground arith)

  fetch_accepted :
      (base count stride : ℕ) (mgr : PipelineMgr) (h : Trace)
      → base ≢ 0
      → count ≢ 0
      → let fetch = (config_vertex_fetch base count stride mgr h).0 in
        (fetch.0 ≡ ok)
        × (fetch.1.vertex_fetch.vertex_count ≡ count)
        × (fetch.1.state ≡ mgr.state)
        × (fetch.1.rasterizer ≡ mgr.rasterizer)
        × (fetch.1.total_primitives ≡ mgr.total_primitives)
        × (fetch.1.total_fragments ≡ mgr.total_fragments)
        × (fetch.1.total_pixels ≡ mgr.total_pixels)
  unfolding config_vertex_fetch
  fetch_accepted base count stride mgr h b c = ground arith

  fetching_sync :
      (draw : DrawCall) (ret : Status) (mgr : PipelineMgr) (h : Trace)
      → ret ≡ ok
      → draw.async ≡ false
      → draw_fetching hw ktime_get alone draw ret mgr h
        ≡ pipeline_execute hw ktime_get alone (configured draw mgr) h
  unfolding draw_fetching
  fetching_sync draw ok mgr h e s = ap (λ (m : Io Frame). m h) (if_false _ _ s)
  fetching_sync draw (err code) mgr h e s = cc

  -- A draw that is accepted and runs at once, on a ready device with no other thread.
  pub draw_tally :
      (draw : DrawCall) (p f x g : ℕ) (mgr : PipelineMgr) (h : Trace)
      → IsSync draw
      → mgr.state ≡ pipe_idle
      → Totals p f x g mgr
      → let g' = generated_next draw.vertex_count g in
        (mgr' : PipelineMgr) × ((draw_with hw ktime_get alone draw mgr h).0 ≡ some (ok, mgr'))
        × (mgr'.state ≡ pipe_idle)
        × Totals (u64 (p + draw.vertex_count / 3)) (u64 (f + g')) (u64 (x + g')) g' mgr'
  unfolding draw_with configured
  draw_tally draw p f x g mgr h s e t =
      let fetch =
        config_vertex_fetch draw.vertex_buffer draw.vertex_count draw.vertex_stride mgr h in
      let (accepted, count, state, raster, prims, frags, pixels) =
        fetch_accepted draw.vertex_buffer draw.vertex_count draw.vertex_stride mgr h s.buffer
          s.vertices in
      let (ret, mgr', done, (now, m, at, (good, tally))) =
        execute-Tally draw.vertex_count p f x g (configured draw fetch.0.1) fetch.1 (state ∙ e)
          (ground arith) in
      (
        mgr',
        ap (λ (o : Frame × Trace). o.0)
              (fetching_sync draw fetch.0.0 fetch.0.1 fetch.1 accepted s.sync)
            ∙ done
            ∙ ap (λ r. some (r, mgr')) good,
        ap (λ (o : PipelineMgr). o.state) at,
        rw at (ground arith),
      )

  draw_again : DrawCall → Frame → Io Frame
  draw_again draw (some (ok, mgr)) = draw_with hw ktime_get alone draw mgr
  draw_again draw (some (err e, mgr)) = pure (some (err e, mgr))
  draw_again draw none = pure none

  -- `draw` again and again, as long as it returns 0.
  pub draw_times : ℕ → DrawCall → PipelineMgr → Io Frame
  unfolding draw_again
  draw_times zero draw mgr = pure (some (ok, mgr))
  draw_times (suc n) draw mgr = do frame ← draw_times n draw mgr; draw_again draw frame

  -- On an idle pipeline whose totals are zero, with no other thread and a device that is neither busy
  -- nor halted, `n` synchronous draws of a batch of triangles all return 0, and as long as the counts
  -- do not wrap the totals after them are not those of `n` batches: the fragments and the pixels of
  -- each frame count those of all frames before it again.
  pub draw_times-overcount :
      (n : ℕ) (draw : DrawCall) (mgr : PipelineMgr) (h : Trace)
      → IsSync draw
      → mgr.state ≡ pipe_idle
      → Totals 0 0 0 0 mgr
      → let batch = draw.vertex_count / 3 in
        batch * 100 * n < 2 ^ 32
        → batch * 100 * triangular n < 2 ^ 64
        → (mgr' : PipelineMgr) × ((draw_times n draw mgr h).0 ≡ some (ok, mgr'))
          × (mgr'.state ≡ pipe_idle)
          × Totals
              (batch * n)
              (batch * 100 * triangular n)
              (batch * 100 * triangular n)
              (batch * 100 * n)
              mgr'
  unfolding draw_times
  draw_times-overcount zero draw mgr h s e t small few = (mgr, refl, e, ground arith)
  draw_times-overcount (suc n) draw mgr h s e t small few =
      let (small', few', prims, generated, total) =
        no_wrap (draw.vertex_count / 3) n (triangular n) small few in
      let (mgr', done, idle, totals) = draw_times-overcount n draw mgr h s e t small' few' in
      let (mgr'', again, idle', totals') =
        draw_tally draw _ _ _ _ mgr' (draw_times n draw mgr h).1 s idle totals in
      (
        mgr'',
        ap (λ f. (draw_again draw f (draw_times n draw mgr h).1).0) done ∙ again,
        idle',
        ground arith,
      )
