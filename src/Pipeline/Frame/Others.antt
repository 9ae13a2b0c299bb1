-- ===== src/Pipeline/Frame/Others.antt =====
-- What other threads can call while `mgpu_pipeline_execute` has dropped the lock between two stages.
-- `mgpu_pipeline_draw` takes no lock, so it can also run inside a stage; that is not modelled.
use package.amdhardware_kernel.Common.{
  ℕ, ◌≡◌, ap, ◌∙◌, Bool, true, false, List, [], ◌∷◌, none, some, arith, not, ◌||◌, if_true,
}
use package.amdhardware_kernel.Bus.{Trace, Hw, Io, ◌>>=◌, pure, ebusy, Status, ok, err}
use package.amdhardware_kernel.Pipeline.{
  PipelineMgr, pipeline_flush, pipeline_stall, pipeline_resume, pipeline_reset_stats,
  config_vertex_fetch,
}
use package.amdhardware_kernel.Pipeline.Running.{
  Undisturbed, CountsKept, CountsKept-refl, Undisturbed-trans, CountsKept-trans,
}
use package.amdhardware_kernel.Pipeline.Frame.{
  Frame, DrawCall, configured, is_idle, pipeline_execute, draw_fetching, draw_with,
  pipeline_monitor,
}

pub data Call : Type 0 where
  resets_stats flushes stalls resumes executes : Call
  monitors : Bool → Call
  draws : DrawCall → Call

-- The manager after a call, which keeps it as it was where the call does not return.
abbrev pub left_by : PipelineMgr → Frame → PipelineMgr
left_by mgr none = mgr
left_by mgr (some (ret, mgr')) = mgr'

abbrev pub is_reset : Call → Bool
is_reset resets_stats = true
is_reset _ = false

abbrev pub resets : List Call → Bool
resets [] = false
resets (call ∷ calls) = is_reset call || resets calls

abbrev Kept : PipelineMgr → PipelineMgr → Type 0
Kept before after = Undisturbed before after × CountsKept before after

module _ (hw : Hw) (ktime_get : Trace → ℕ) where
  -- A thread that finds the pipeline running returns from `mgpu_pipeline_execute` at once, so that no
  -- other threads are needed during its own call.
  abbrev pub run_call : Call → PipelineMgr → Io PipelineMgr
  run_call resets_stats mgr = pure (pipeline_reset_stats mgr)
  run_call flushes mgr = do ret ← pipeline_flush hw; pure mgr
  run_call stalls mgr = do ret ← pipeline_stall hw; pure mgr
  run_call resumes mgr = do ret ← pipeline_resume hw; pure mgr
  run_call executes mgr = do
    frame ← pipeline_execute hw ktime_get pure mgr
    pure (left_by mgr frame)
  run_call (monitors in_reset) mgr = pipeline_monitor hw in_reset mgr
  run_call (draws draw) mgr = do
    frame ← draw_with hw ktime_get pure draw mgr
    pure (left_by mgr frame)

  unfoldable pub run_calls : List Call → PipelineMgr → Io PipelineMgr
  run_calls [] mgr = pure mgr
  run_calls (call ∷ calls) mgr = do mgr' ← run_call call mgr; run_calls calls mgr'

  -- `cond_resched`: the calls that come are chosen by the history of the bus.
  abbrev pub others : (Trace → List Call) → PipelineMgr → Io PipelineMgr
  others schedule mgr h = run_calls (schedule h) mgr h

  pub execute_busy :
      (cond_resched : PipelineMgr → Io PipelineMgr) (mgr : PipelineMgr) (h : Trace)
      → is_idle mgr.state ≡ false
      → pipeline_execute hw ktime_get cond_resched mgr h ≡ (some (err ebusy, mgr), h)
  unfolding pipeline_execute
  execute_busy cond_resched mgr h e = ap (λ (m : Io Frame). m h) (if_true _ _ (ap not e))

  fetch-Kept :
      (base count stride : ℕ) (mgr : PipelineMgr) (h : Trace)
      → Kept mgr (config_vertex_fetch base count stride mgr h).0.1
  unfolding config_vertex_fetch
  fetch-Kept base count stride mgr h = ground arith

  monitor-Kept :
      (in_reset : Bool) (mgr : PipelineMgr) (h : Trace)
      → Kept mgr (pipeline_monitor hw in_reset mgr h).0
  unfolding pipeline_monitor
  monitor-Kept in_reset mgr h = ground arith

  fetching-Kept :
      (base : PipelineMgr) (draw : DrawCall) (ret : Status) (mgr : PipelineMgr) (h : Trace)
      → is_idle mgr.state ≡ false
      → Kept mgr (left_by base (draw_fetching hw ktime_get pure draw ret mgr h).0)
  unfolding draw_fetching configured
  fetching-Kept base draw (err code) mgr h e = ground arith
  fetching-Kept base draw ok mgr h e = ground (arith, execute_busy pure (configured draw mgr) h e)

  draw-Kept :
      (draw : DrawCall) (mgr : PipelineMgr) (h : Trace)
      → is_idle mgr.state ≡ false
      → Kept mgr (left_by mgr (draw_with hw ktime_get pure draw mgr h).0)
  unfolding draw_with
  draw-Kept draw mgr h e =
      let fetch =
        config_vertex_fetch draw.vertex_buffer draw.vertex_count draw.vertex_stride mgr h in
      let (u, k) = fetch-Kept draw.vertex_buffer draw.vertex_count draw.vertex_stride mgr h in
      let (u', k') = fetching-Kept mgr draw fetch.0.0 fetch.0.1 fetch.1 (ap is_idle u.state ∙ e) in
      (Undisturbed-trans u u', CountsKept-trans k k')

  -- Whatever other threads call, a running pipeline stays in its state.
  call-Kept :
      (call : Call) (mgr : PipelineMgr) (h : Trace)
      → is_idle mgr.state ≡ false
      → Undisturbed mgr (run_call call mgr h).0
        × (is_reset call ≡ false → CountsKept mgr (run_call call mgr h).0)
  unfolding pipeline_reset_stats
  call-Kept resets_stats mgr h e = (ground arith, λ r. cc)
  call-Kept executes mgr h e =
      rw (execute_busy pure mgr h e) (ground arith, λ r. CountsKept-refl mgr)
  call-Kept (monitors in_reset) mgr h e = let (u, k) = monitor-Kept in_reset mgr h in (u, λ r. k)
  call-Kept (draws draw) mgr h e = let (u, k) = draw-Kept draw mgr h e in (u, λ r. k)
  call-Kept flushes mgr h e = (ground arith, λ r. CountsKept-refl mgr)
  call-Kept stalls mgr h e = (ground arith, λ r. CountsKept-refl mgr)
  call-Kept resumes mgr h e = (ground arith, λ r. CountsKept-refl mgr)

  pub calls-Kept :
      (calls : List Call) (mgr : PipelineMgr) (h : Trace)
      → is_idle mgr.state ≡ false
      → Undisturbed mgr (run_calls calls mgr h).0
        × (resets calls ≡ false → CountsKept mgr (run_calls calls mgr h).0)
  unfolding run_calls
  calls-Kept [] mgr h e = (ground arith, λ r. CountsKept-refl mgr)
  calls-Kept (call ∷ calls) mgr h e =
      let next = run_call call mgr h in
      let (u, k) = call-Kept call mgr h e in
      let (u', k') = calls-Kept calls next.0 next.1 (ap is_idle u.state ∙ e) in
      (Undisturbed-trans u u', λ r. CountsKept-trans (k (ground arith)) (k' (ground arith)))
