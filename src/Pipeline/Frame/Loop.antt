-- ===== src/Pipeline/Frame/Loop.antt =====
-- A rule for the loop of `mgpu_pipeline_execute`: it ends within its rounds, and what each stage and
-- each break between stages keep holds of its result.
use package.amdhardware_kernel.Common.{
  ℕ, ◌+◌, u64, zero, suc, ◌<◌, ◌≡◌, refl, ap, ◌⊎◌, false, some, arith, inl, inr,
}
use package.amdhardware_kernel.Bus.{Trace, Hw, Io, Status, ok, err}
use package.amdhardware_kernel.Pipeline.{
  PipelineMgr, PipelineState, pipe_idle, pipe_fetch_vertex, pipe_execute_shader, pipe_rasterize,
  pipe_fragment, pipe_done,
}
use package.amdhardware_kernel.Pipeline.Running.{Running, fetching, shading, rasterizing, coloring}
use package.amdhardware_kernel.Pipeline.Stages.{execute_stage}
use package.amdhardware_kernel.Pipeline.Frame.{
  Frame, is_idle, is_done, next_state, advance, run_stages, frame_ended, frame_started,
  pipeline_execute,
}

-- The stages that are left.
abbrev pub rank : PipelineState → ℕ
rank pipe_fetch_vertex = 4
rank pipe_execute_shader = 3
rank pipe_rasterize = 2
rank pipe_fragment = 1
rank _ = 0

-- The frame came to an end that satisfies `Post`.
abbrev pub EndsIn : (Status → PipelineMgr → Type 0) → Frame → Type 0
EndsIn Post frame = (ret : Status) × (mgr : PipelineMgr) × (frame ≡ some (ret, mgr)) × Post ret mgr

Running-cases : (s : PipelineState) → is_idle s ≡ false → Running s ⊎ (s ≡ pipe_done)
Running-cases pipe_idle e = cc
Running-cases pipe_fetch_vertex e = inl fetching
Running-cases pipe_execute_shader e = inl shading
Running-cases pipe_rasterize e = inl rasterizing
Running-cases pipe_fragment e = inl coloring
Running-cases pipe_done e = inr refl

pub Running-goes_on :
    {s : PipelineState}
    → Running s
    → (is_done s ≡ false) × (is_idle (next_state s) ≡ false) × (rank (next_state s) < rank s)
Running-goes_on fetching = (refl, refl, omega arith)
Running-goes_on shading = (refl, refl, omega arith)
Running-goes_on rasterizing = (refl, refl, omega arith)
Running-goes_on coloring = (refl, refl, omega arith)

-- The manager at the start of a frame and, after the loop, at its end.
abbrev pub started : ℕ → PipelineMgr → PipelineMgr
started now mgr = record mgr { frame_start_time = now; state = pipe_fetch_vertex }

abbrev pub ended : ℕ → PipelineMgr → PipelineMgr
ended now mgr = record mgr {
  frame_end_time = now;
  frames_rendered = u64 (mgr.frames_rendered + 1);
  state = pipe_idle;
}

-- The result is that of a loop which ended in `Post`.
abbrev pub Ended : (Status → PipelineMgr → Type 0) → Status → PipelineMgr → Type 0
Ended Post ret mgr' = (now : ℕ) × (mgr : PipelineMgr) × (mgr' ≡ ended now mgr) × Post ret mgr

module _ (hw : Hw) (ktime_get : Trace → ℕ) (cond_resched : PipelineMgr → Io PipelineMgr) where
  module _ (Inv : PipelineMgr → Type 0) (Post : Status → PipelineMgr → Type 0) where
    -- A stage that succeeds leads to the next state, one that fails to the end.
    abbrev pub Step : PipelineState → (Status × PipelineMgr) × Trace → Type 0
    Step state ((ok, after), h) =
        let moved = (advance hw ktime_get cond_resched after h).0 in
        (moved.state ≡ next_state state) × Inv moved
    Step state ((err e, after), h) = Post (err e) after

    abbrev pub StepRule : Type 0
    StepRule =
        (mgr : PipelineMgr) (h : Trace)
        → Running mgr.state
        → Inv mgr
        → Step mgr.state (execute_stage hw mgr.state mgr h)

    abbrev pub EndRule : Type 0
    EndRule = (mgr : PipelineMgr) → mgr.state ≡ pipe_done → Inv mgr → Post ok mgr

    split :
        (rounds : ℕ) (state : PipelineState) (ran : (Status × PipelineMgr) × Trace)
        → ((mgr : PipelineMgr) (h : Trace)
            → mgr.state ≡ next_state state
            → Inv mgr
            → EndsIn Post (run_stages hw ktime_get cond_resched rounds mgr h).0)
        → Step state ran
        → EndsIn Post (
            let moved = advance hw ktime_get cond_resched ran.0.1 ran.1 in
            let rest = run_stages hw ktime_get cond_resched rounds moved.0 moved.1 in
            let answer : Frame × Trace = elim ran.0.0 [
              | ok ↦ rest
              | err e ↦ (some (err e, ran.0.1), ran.1)
            ] in
            answer.0)
    split rounds state ((ok, after), h) more (e, i) =
        let moved = advance hw ktime_get cond_resched after h in more moved.0 moved.1 e i
    split rounds state ((err code, after), h) more post = (err code, after, refl, post)

    pub run_stages-EndsIn :
        StepRule
        → EndRule
        → (rounds : ℕ) (mgr : PipelineMgr) (h : Trace) → rank mgr.state < rounds
        → is_idle mgr.state ≡ false
        → Inv mgr
        → EndsIn Post (run_stages hw ktime_get cond_resched rounds mgr h).0
    unfolding run_stages
    run_stages-EndsIn step ends zero mgr h lt e i = absurd (omega arith)
    run_stages-EndsIn step ends (suc rounds) mgr h lt e i = elim (Running-cases mgr.state e) [
      | inl r ↦
          let (going, alive, less) = Running-goes_on r in
          rw (e, going)
            (split rounds mgr.state (execute_stage hw mgr.state mgr h)
              (λ next h' s i'.
                run_stages-EndsIn step ends rounds next h' (rw s (omega arith)) (rw s alive) i')
              (step mgr h r i))
      | inr d ↦ rw (e, ap is_done d) (ok, mgr, refl, ends mgr d i)
    ]

    frame_ended-EndsIn :
        (frame : Frame × Trace)
        → EndsIn Post frame.0
        → EndsIn (Ended Post) (frame_ended hw ktime_get cond_resched frame.0 frame.1).0
    unfolding frame_ended
    frame_ended-EndsIn (frame, h) (ret, mgr, e, post) =
        rw e (ret, ended (ktime_get h) mgr, refl, (ktime_get h, mgr, refl, post))

    -- A call on an idle pipeline ends, and `Post` holds where its loop ends.
    pub pipeline_execute-EndsIn :
        StepRule
        → EndRule
        → (mgr : PipelineMgr) (h : Trace) → mgr.state ≡ pipe_idle
        → Inv (started (ktime_get h) mgr)
        → EndsIn (Ended Post) (pipeline_execute hw ktime_get cond_resched mgr h).0
    unfolding pipeline_execute frame_started
    pipeline_execute-EndsIn step ends mgr h e i = rw (ap is_idle e) (
        frame_ended-EndsIn _
          (run_stages-EndsIn step ends 5 (started (ktime_get h) mgr) h (omega arith) refl i))
