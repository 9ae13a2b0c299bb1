-- ===== src/Pipeline/Stages/Own.antt =====
-- What the stages return, and what they leave of the fields that the loop and other threads use.
use package.amdhardware_kernel.Common.{◌≡◌, ◌⊎◌, arith}
use package.amdhardware_kernel.Bus.{Trace, Hw, Status, ok, err, etimedout, eio}
use package.amdhardware_kernel.Pipeline.{
  PipelineMgr, PipelineState, pipe_fetch_vertex, pipe_execute_shader,
}
use package.amdhardware_kernel.Pipeline.Running.{
  Running, fetching, shading, rasterizing, coloring, Undisturbed,
}
use package.amdhardware_kernel.Pipeline.Stages.{
  fetch_vertices, execute_shaders, execute_fragment_shader, after_vertex_shader, execute_shader,
  fetched, rasterize, process_fragments, stage_ended, execute_stage,
}

-- The answers of the shaders.
abbrev ShaderAnswer : Status → Type 0
ShaderAnswer ret = (ret ≡ ok) ⊎ (ret ≡ err eio)

-- What a frame returns, with the stage that it notes as failed: only the fetch of the vertices and the
-- shaders can fail.
abbrev pub Outcome : Status → PipelineState → Type 0
Outcome ret stage =
    (ret ≡ ok)
    ⊎ ((ret ≡ err etimedout) × (stage ≡ pipe_fetch_vertex))
    ⊎ ((ret ≡ err eio) × (stage ≡ pipe_execute_shader))

-- What a stage does to the fields that the loop and other threads use.
abbrev pub StageOwn : PipelineMgr → Status → PipelineMgr → Type 0
StageOwn mgr ret after = Undisturbed mgr after × Outcome ret after.last_error_stage

module _ (hw : Hw) where
  after_vertex_shader-Own :
      (mgr : PipelineMgr) (h : Trace)
      → let ran = (after_vertex_shader hw ok mgr h).0 in Undisturbed mgr ran.1 × ShaderAnswer ran.0
  unfolding after_vertex_shader execute_fragment_shader execute_shader
  after_vertex_shader-Own mgr h = ground arith

  execute_shaders-Own :
      (mgr : PipelineMgr) (h : Trace)
      → let ran = (execute_shaders hw mgr h).0 in Undisturbed mgr ran.1 × ShaderAnswer ran.0
  unfolding execute_shaders
  execute_shaders-Own mgr h = ground arith

  pub stage_lem :
      (state : PipelineState) (mgr : PipelineMgr) (h : Trace)
      → Running state
      → let ran = (execute_stage hw state mgr h).0 in StageOwn mgr ran.0 ran.1
  unfolding execute_stage stage_ended fetch_vertices fetched rasterize process_fragments
  stage_lem state mgr h fetching = ground arith
  stage_lem state mgr h shading = ground (arith, execute_shaders-Own mgr h)
  stage_lem state mgr h rasterizing = ground arith
  stage_lem state mgr h coloring = ground arith
