-- ===== src/Pipeline/Stages/Tally.antt =====
-- The statistics of a frame on a device that is neither busy nor halted, stage by stage.
use package.amdhardware_kernel.Common.{
  ℕ, suc, ◌+◌, ◌/◌, ◌*◌, ◌≡◌, ◌∷◌, bit_or, false, arith, flag, u64, u32, some,
}
use package.amdhardware_kernel.Bus.{rd, wr, spin, Event, Trace, Hw, Status, ok, err}
use package.amdhardware_kernel.Bus.Regs.{
  reg_status, reg_control, reg_shader_pc, ctrl_enable, status_busy, status_halted,
}
use package.amdhardware_kernel.Core.{poll_until}
use package.amdhardware_kernel.Pipeline.{
  PipelineMgr, PipelineStage, ShaderExecState, PipelineState, pipe_fetch_vertex,
  pipe_execute_shader, pipe_rasterize, pipe_fragment, pipe_done,
}
use package.amdhardware_kernel.Pipeline.Running.{Running, fetching, shading, rasterizing, coloring}
use package.amdhardware_kernel.Pipeline.Stages.{
  fetch_vertices, execute_shaders, execute_fragment_shader, after_vertex_shader, execute_shader,
  fetched, rasterize, process_fragments, stage_ended, execute_stage, not_busy,
}

-- The device never shows that it is busy or halted.
pub record Ready (hw : Hw) : Type 0 where
  pub idle : (h : Trace) → flag (hw h reg_status) status_busy ≡ false
  pub live : (h : Trace) → flag (hw h reg_status) status_halted ≡ false

-- The number of vertices of a frame, and the totals that matter for it.
pub record Tally (count p f x g : ℕ) (mgr : PipelineMgr) : Type 0 where
  pub vertices : mgr.vertex_fetch.vertex_count ≡ count
  pub primitives : mgr.total_primitives ≡ p
  pub fragments : mgr.total_fragments ≡ f
  pub pixels : mgr.total_pixels ≡ x
  pub generated : mgr.rasterizer.fragments_generated ≡ g

-- What the rasterizer counts as generated at the end of a frame.
abbrev pub generated_next : ℕ → ℕ → ℕ
generated_next count g = u32 (g + u32 (count / 3 * 100))

module _ (count p f x g : ℕ) where
  abbrev pub TallyAt : PipelineState → PipelineMgr → Type 0
  TallyAt pipe_fragment =
      Tally count (u64 (p + count / 3)) (u64 (f + generated_next count g)) x
        (generated_next count g)
  TallyAt pipe_done =
      Tally count (u64 (p + count / 3)) (u64 (f + generated_next count g))
        (u64 (x + generated_next count g)) (generated_next count g)
  TallyAt _ = Tally count p f x g

  abbrev pub AfterStage : PipelineState → PipelineMgr → Type 0
  AfterStage pipe_fetch_vertex = TallyAt pipe_execute_shader
  AfterStage pipe_execute_shader = TallyAt pipe_rasterize
  AfterStage pipe_rasterize = TallyAt pipe_fragment
  AfterStage _ = TallyAt pipe_done

module _ {hw : Hw} (ready : Ready hw) where
  poll_ready :
      (delay : Event) (n : ℕ) (h : Trace)
      → poll_until hw not_busy delay (suc n) h ≡ (some n, rd reg_status ∷ h)
  unfolding poll_until
  poll_ready delay n h = rw (ready.idle h)

  execute_shader-ok :
      (shader : ShaderExecState) (stages : ℕ → PipelineStage) (h : Trace)
      → (execute_shader hw shader stages h).0.0 ≡ ok
  unfolding execute_shader
  execute_shader-ok shader stages h =
      rw (ready.live (wr reg_shader_pc (u32 (shader.slot * 256)) ∷ h))

  after_vertex_shader-Tally :
      {count p f x g : ℕ} (ret : Status) (mgr : PipelineMgr) (h : Trace)
      → ret ≡ ok
      → Tally count p f x g mgr
      → let ran = (after_vertex_shader hw ret mgr h).0 in (ran.0 ≡ ok) × Tally count p f x g ran.1
  unfolding after_vertex_shader execute_fragment_shader
  after_vertex_shader-Tally ok mgr h e t =
      ground (arith, execute_shader-ok mgr.fragment_shader mgr.stages h)
  after_vertex_shader-Tally (err code) mgr h e t = cc

  execute_shaders-Tally :
      {count p f x g : ℕ} (mgr : PipelineMgr) (h : Trace)
      → Tally count p f x g mgr
      → let ran = (execute_shaders hw mgr h).0 in (ran.0 ≡ ok) × Tally count p f x g ran.1
  unfolding execute_shaders
  execute_shaders-Tally mgr h t =
      let run = execute_shader hw mgr.vertex_shader mgr.stages h in
      after_vertex_shader-Tally run.0.0 (record mgr { vertex_shader = run.0.1; stages = run.0.2 })
        run.1 (execute_shader-ok mgr.vertex_shader mgr.stages h) (ground arith)

  fetch_vertices-ok : (mgr : PipelineMgr) (h : Trace) → (fetch_vertices hw mgr h).0.0 ≡ ok
  unfolding fetch_vertices
  fetch_vertices-ok mgr h = ground (
    arith,
    poll_ready (spin 10) 99
        (wr reg_control (bit_or (hw h reg_control) ctrl_enable) ∷ rd reg_control ∷ h),
  )

  pub stage-Tally :
      (count p f x g : ℕ) (state : PipelineState) (mgr : PipelineMgr) (h : Trace)
      → Running state
      → TallyAt count p f x g state mgr
      → let ran = (execute_stage hw state mgr h).0 in
        (ran.0 ≡ ok) × AfterStage count p f x g state ran.1
  unfolding execute_stage stage_ended fetch_vertices fetched rasterize process_fragments
  stage-Tally count p f x g state mgr h fetching t = ground (arith, fetch_vertices-ok mgr h)
  stage-Tally count p f x g state mgr h shading t =
      let (done, t') = execute_shaders-Tally mgr h t in ground arith
  stage-Tally count p f x g state mgr h rasterizing t = ground arith
  stage-Tally count p f x g state mgr h coloring t = ground arith
