-- ===== src/Pipeline/Stages/Counted.antt =====
-- The totals of the pipeline against the items that its stages have processed.
use package.amdhardware_kernel.Common.{ℕ, ◌+◌, ◌≡◌, ◌≢◌, refl, arith, u64}
use package.amdhardware_kernel.Bus.{Trace, Hw, Status, ok, err}
use package.amdhardware_kernel.Pipeline.{PipelineMgr, PipelineState, pipe_rasterize, pipe_fragment}
use package.amdhardware_kernel.Pipeline.Running.{Running, fetching, shading, rasterizing, coloring}
use package.amdhardware_kernel.Pipeline.Stages.{
  fetch_vertices, execute_shaders, execute_fragment_shader, after_vertex_shader, execute_shader,
  fetched, rasterize, process_fragments, stage_ended, execute_stage,
}

-- `pending` fragments are counted as generated, and not yet as pixels.
pub record Counted (pending : ℕ) (mgr : PipelineMgr) : Type 0 where
  pub vertices : (mgr.stages 0).processed_items ≡ mgr.total_vertices
  pub primitives : (mgr.stages 2).processed_items ≡ mgr.total_primitives
  pub fragments : (mgr.stages 3).processed_items ≡ mgr.total_pixels
  pub pixels : (mgr.stages 4).processed_items ≡ mgr.total_pixels
  pub together : mgr.total_fragments ≡ u64 (mgr.total_pixels + pending)

-- Between the rasterizer and the fragment stage the last batch is pending.
abbrev pub pending_in : PipelineState → PipelineMgr → ℕ
pending_in pipe_fragment mgr = mgr.rasterizer.fragments_generated
pending_in _ mgr = 0

abbrev pub pending_after : PipelineState → PipelineMgr → ℕ
pending_after pipe_rasterize mgr = mgr.rasterizer.fragments_generated
pending_after _ mgr = 0

module _ (hw : Hw) where
  after_vertex_shader-Counted :
      (ret : Status) (mgr : PipelineMgr) (h : Trace)
      → Counted 0 mgr
      → Counted 0 (after_vertex_shader hw ret mgr h).0.1
  unfolding after_vertex_shader execute_fragment_shader execute_shader
  after_vertex_shader-Counted ok mgr h c = ground arith
  after_vertex_shader-Counted (err e) mgr h c = c

  execute_shaders-Counted :
      (mgr : PipelineMgr) (h : Trace) → Counted 0 mgr → Counted 0 (execute_shaders hw mgr h).0.1
  unfolding execute_shaders execute_shader
  execute_shaders-Counted mgr h c = ground arith

  -- The fragments of a batch are pending when the rasterizer has ended, which does not fail.
  pub stage-Counted :
      (state : PipelineState) (mgr : PipelineMgr) (h : Trace)
      → Running state
      → Counted (pending_in state mgr) mgr
      → let ran = (execute_stage hw state mgr h).0 in
        Counted (pending_after state ran.1) ran.1 × (ran.0 ≢ ok → pending_after state ran.1 ≡ 0)
  unfolding execute_stage stage_ended fetch_vertices fetched rasterize process_fragments
  stage-Counted state mgr h fetching c = (ground arith, λ n. refl)
  stage-Counted state mgr h shading c =
      let c' = execute_shaders-Counted mgr h c in (ground arith, λ n. refl)
  stage-Counted state mgr h rasterizing c = (ground arith, λ n. absurd (n refl))
  stage-Counted state mgr h coloring c = (ground arith, λ n. refl)
