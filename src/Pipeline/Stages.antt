-- ===== src/Pipeline/Stages.antt =====
-- The stages of a frame: `mgpu_pipeline_fetch_vertices`, `mgpu_pipeline_execute_shader`,
-- `mgpu_pipeline_rasterize`, `mgpu_pipeline_process_fragments` and `mgpu_pipeline_execute_stage`.
pub mod Own
pub mod Counted
pub mod Tally
pub mod Fetch
use package.amdhardware_kernel.Common.{
  ℕ, ◌+◌, ◌*◌, ◌/◌, Bool, true, false, not, ◌==◌, ltb, if◌then◌else◌, flag, bit_or, u32, u64,
}
use package.amdhardware_kernel.Bus.{
  spin, Hw, Io, ◌>>=◌, ◌>>◌, pure, read, write, eio, etimedout, Status, ok, err,
}
use package.amdhardware_kernel.Bus.Regs.{
  reg_control, reg_status, reg_shader_pc, ctrl_enable, status_busy, status_halted,
}
use package.amdhardware_kernel.Core.{poll_until, timed_out}
use package.amdhardware_kernel.Pipeline.{
  PipelineState, pipe_idle, pipe_fetch_vertex, pipe_execute_shader, pipe_rasterize, pipe_fragment,
  pipe_done, PipelineStage, ShaderExecState, PipelineMgr, add_items,
}

abbrev pub not_busy : ℕ → Bool
not_busy status = not (flag status status_busy)

-- What the fetch writes after its wait, whether that timed out or not.
pub fetched : PipelineMgr → PipelineMgr
fetched mgr =
    let count = mgr.vertex_fetch.vertex_count in
    record mgr {
      vertex_fetch = record mgr.vertex_fetch { fetch_active = false; current_vertex = count };
      total_vertices = u64 (mgr.total_vertices + count);
      stages = add_items 0 count mgr.stages;
    }

module _ (hw : Hw) where
  pub fetch_vertices : PipelineMgr → Io (Status × PipelineMgr)
  unfolding fetched
  fetch_vertices mgr = if mgr.vertex_fetch.vertex_count == 0 then pure (ok, mgr) else do
    status ← read hw reg_control
    write reg_control (bit_or status ctrl_enable)
    timeout ← poll_until hw not_busy (spin 10) 100
    pure (if timed_out timeout then err etimedout else ok, fetched mgr)

  -- The state of the shader and the stages are the parts of the manager that change.
  pub execute_shader :
      ShaderExecState → (ℕ → PipelineStage) → Io (Status × ShaderExecState × (ℕ → PipelineStage))
  execute_shader shader stages = do
    write reg_shader_pc (u32 (shader.slot * 256))
    let ran = record shader { cycles_executed = u32 (shader.cycles_executed + 1) }
    status ← read hw reg_status
    pure (
        if flag status status_halted
        then (err eio, record ran { halted = true }, stages)
        else (ok, ran, add_items 1 1 stages))

  pub execute_fragment_shader : PipelineMgr → Io (Status × PipelineMgr)
  unfolding execute_shader
  execute_fragment_shader mgr = do
    run ← execute_shader mgr.fragment_shader mgr.stages
    pure (run.0, record mgr { fragment_shader = run.1; stages = run.2 })

  -- The case PIPE_EXECUTE_SHADER after the vertex shader, with its answer.
  pub after_vertex_shader : Status → PipelineMgr → Io (Status × PipelineMgr)
  unfolding execute_fragment_shader
  after_vertex_shader ok mgr =
      if ltb mgr.config.shader_slot 16 then execute_fragment_shader mgr else pure (ok, mgr)
  after_vertex_shader (err e) mgr = pure (err e, mgr)

  pub execute_shaders : PipelineMgr → Io (Status × PipelineMgr)
  unfolding execute_shader after_vertex_shader
  execute_shaders mgr = do
    run ← execute_shader mgr.vertex_shader mgr.stages
    after_vertex_shader run.0 (record mgr { vertex_shader = run.1; stages = run.2 })

pub rasterize : PipelineMgr → PipelineMgr
rasterize mgr =
    let batch = mgr.vertex_fetch.vertex_count / 3 in
    let generated = u32 (mgr.rasterizer.fragments_generated + u32 (batch * 100)) in
    record mgr {
      rasterizer = record {
        raster_active = false;
        triangles_processed = u32 (mgr.rasterizer.triangles_processed + batch);
        fragments_generated = generated;
      };
      total_primitives = u64 (mgr.total_primitives + batch);
      total_fragments = u64 (mgr.total_fragments + generated);
      stages = add_items 2 batch mgr.stages;
    }

pub process_fragments : PipelineMgr → PipelineMgr
process_fragments mgr =
    let pixels = mgr.rasterizer.fragments_generated in
    record mgr {
      fragment = record mgr.fragment { fragments_processed = pixels; pixels_written = pixels };
      total_pixels = u64 (mgr.total_pixels + pixels);
      stages = add_items 4 pixels (add_items 3 pixels mgr.stages);
    }

-- The end of `mgpu_pipeline_execute_stage`.
pub stage_ended : PipelineState → Status → PipelineMgr → PipelineMgr
stage_ended stage ok mgr = mgr
stage_ended stage (err e) mgr = record mgr {
  pipeline_errors = u32 (mgr.pipeline_errors + 1);
  last_error_stage = stage;
}

module _ (hw : Hw) where
  -- The `switch` of `mgpu_pipeline_execute_stage`.
  pub run_stage : PipelineState → PipelineMgr → Io (Status × PipelineMgr)
  unfolding fetch_vertices execute_shaders rasterize process_fragments
  run_stage pipe_fetch_vertex mgr = fetch_vertices hw mgr
  run_stage pipe_execute_shader mgr = execute_shaders hw mgr
  run_stage pipe_rasterize mgr = pure (ok, rasterize mgr)
  run_stage pipe_fragment mgr = pure (ok, process_fragments mgr)
  run_stage pipe_done mgr = pure (ok, record mgr { completed = mgr.completed + 1 })
  run_stage pipe_idle mgr = pure (ok, mgr)

  unfoldable pub execute_stage : PipelineState → PipelineMgr → Io (Status × PipelineMgr)
  unfolding run_stage stage_ended
  execute_stage stage mgr = do
    ran ← run_stage stage mgr
    pure (ran.0, stage_ended stage ran.0 ran.1)
