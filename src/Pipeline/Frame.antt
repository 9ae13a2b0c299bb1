-- ===== src/Pipeline/Frame.antt =====
-- `mgpu_pipeline_execute`, its works, `mgpu_pipeline_draw`, start and end. What other threads do while
-- `cond_resched` runs without the lock is an argument, and so is `ktime_get`.
pub mod Others
pub mod Loop
pub mod Returns
pub mod Totals
pub mod Draws
mod Tests
use package.amdhardware_kernel.Common.{
  ℕ, zero, suc, ◌+◌, ◌%◌, Bool, true, false, not, Option, none, some, ◌&&◌, ◌==◌, ltb,
  if◌then◌else◌, flag, u32, u64,
}
use package.amdhardware_kernel.Bus.{
  Trace, Hw, Io, ◌>>=◌, ◌>>◌, pure, read, emit, unit_done, schedule_pipeline, cancel_pipeline,
  schedule_monitor, cancel_monitor, ebusy, enodev, enomem, Status, ok, err,
}
use package.amdhardware_kernel.Bus.Regs.{reg_status, status_error, status_halted}
use package.amdhardware_kernel.Schedule.{reset_schedule}
use package.amdhardware_kernel.Shader.{shader_vertex, shader_fragment}
use package.amdhardware_kernel.Pipeline.{
  PipelineState, pipe_idle, pipe_fetch_vertex, pipe_execute_shader, pipe_rasterize, pipe_fragment,
  pipe_done, PipelineMgr, initial_stage, config_vertex_fetch, config_rasterizer, config_fragment,
  config_framebuffer, pipeline_flush,
}
use package.amdhardware_kernel.Pipeline.Stages.{execute_stage}

abbrev pub next_state : PipelineState → PipelineState
next_state pipe_fetch_vertex = pipe_execute_shader
next_state pipe_execute_shader = pipe_rasterize
next_state pipe_rasterize = pipe_fragment
next_state pipe_fragment = pipe_done
next_state _ = pipe_idle

abbrev pub is_idle : PipelineState → Bool
is_idle pipe_idle = true
is_idle _ = false

abbrev pub is_done : PipelineState → Bool
is_done pipe_done = true
is_done _ = false

-- A `struct mgpu_draw_call`, in the fields that `mgpu_pipeline_draw` reads; `async` is the flag
-- MGPU_DRAW_ASYNC.
pub record DrawCall : Type 0 where
  pub vertex_buffer : ℕ
  pub vertex_count : ℕ
  pub vertex_stride : ℕ
  pub vertex_shader_slot : ℕ
  pub fragment_shader_slot : ℕ
  pub cull_enable : Bool
  pub cull_mode : ℕ
  pub texture_enable : Bool
  pub texture_slot : ℕ
  pub framebuffer_addr : ℕ
  pub async : Bool

-- The shader slots of a draw, and the other stages.
pub configured : DrawCall → PipelineMgr → PipelineMgr
unfolding config_rasterizer config_fragment config_framebuffer
configured draw mgr =
    let slots = record mgr {
      vertex_shader = record mgr.vertex_shader {
        slot = draw.vertex_shader_slot;
        kind = shader_vertex;
      };
      fragment_shader = record mgr.fragment_shader {
        slot = draw.fragment_shader_slot;
        kind = shader_fragment;
      };
    } in
    config_framebuffer draw.framebuffer_addr (
      config_fragment draw.texture_enable draw.texture_slot
        (config_rasterizer draw.cull_enable draw.cull_mode slots))

-- What a call of the pipeline returns and leaves, or `none` where the rounds given do not suffice.
abbrev pub Frame : Type 0
Frame = Option (Status × PipelineMgr)

-- The same with `mdev->pipeline_mgr`, which may be NULL.
abbrev pub DeviceFrame : Type 0
DeviceFrame = Option (Status × Option PipelineMgr)

abbrev stored : Frame → DeviceFrame
stored none = none
stored (some (ret, mgr)) = some (ret, some mgr)

module _ (hw : Hw) (ktime_get : Trace → ℕ) (cond_resched : PipelineMgr → Io PipelineMgr) where
  -- The manager after a stage that succeeded, with the lock dropped unless the frame is done.
  pub advance : PipelineMgr → Io PipelineMgr
  advance mgr =
      let mgr' = record mgr { state = next_state mgr.state } in
      if is_done mgr'.state then pure mgr' else cond_resched mgr'

  -- The loop, in at most as many rounds as the first argument.
  pub run_stages : ℕ → PipelineMgr → Io Frame
  run_stages zero mgr h = (none, h)
  run_stages (suc rounds) mgr h =
      let ran = execute_stage hw mgr.state mgr h in
      let moved = advance ran.0.1 ran.1 in
      let rest = run_stages rounds moved.0 moved.1 in
      if is_idle mgr.state
      then (some (ok, mgr), h)
      else if is_done mgr.state
      then (some (ok, mgr), h)
      else elim ran.0.0 [ ok ↦ rest | err e ↦ (some (err e, ran.0.1), ran.1) ]

  -- What follows the loop.
  pub frame_ended : Frame → Io Frame
  frame_ended none h = (none, h)
  frame_ended (some (ret, mgr)) h = (
    some (
      ret,
      record mgr {
        frame_end_time = ktime_get h;
        frames_rendered = u64 (mgr.frames_rendered + 1);
        state = pipe_idle;
      },
    ),
    h,
  )

  pub frame_started : PipelineMgr → Io PipelineMgr
  frame_started mgr h =
      (record mgr { frame_start_time = ktime_get h; state = pipe_fetch_vertex }, h)

  pub pipeline_execute : PipelineMgr → Io Frame
  unfolding frame_started frame_ended
  pipeline_execute mgr =
      if not (is_idle mgr.state)
      then pure (some (err ebusy, mgr))
      else do started ← frame_started mgr; frame ← run_stages 5 started; frame_ended frame

  -- The rest of `mgpu_pipeline_draw` after the configuration of the vertex fetch, with its answer.
  pub draw_fetching : DrawCall → Status → PipelineMgr → Io Frame
  unfolding configured pipeline_execute
  draw_fetching draw (err e) mgr = pure (some (err e, mgr))
  draw_fetching draw ok mgr =
      let mgr' = configured draw mgr in
      if draw.async
      then (emit schedule_pipeline >> pure (some (ok, mgr')))
      else pipeline_execute mgr'

  -- `mgpu_pipeline_draw` from the configuration of the vertex fetch on.
  pub draw_with : DrawCall → PipelineMgr → Io Frame
  unfolding config_vertex_fetch draw_fetching
  draw_with draw mgr = do
    fetch ← config_vertex_fetch draw.vertex_buffer draw.vertex_count draw.vertex_stride mgr
    draw_fetching draw fetch.0 fetch.1

  -- The second argument is `mdev->pipeline_mgr`.
  pub pipeline_draw : DrawCall → Option PipelineMgr → Io DeviceFrame
  unfolding draw_with
  pipeline_draw draw none = pure (some (err enodev, none))
  pipeline_draw draw (some mgr) = do frame ← draw_with draw mgr; pure (stored frame)

-- `mgpu_pipeline_monitor_work`, with the flag `in_reset` of the device.
pub pipeline_monitor : Hw → Bool → PipelineMgr → Io PipelineMgr
unfolding reset_schedule
pipeline_monitor hw in_reset mgr = do
  status ← read hw reg_status
  let mgr' =
      if flag status status_error
      then record mgr { pipeline_errors = u32 (mgr.pipeline_errors + 1) }
      else mgr
  if flag status status_halted then reset_schedule in_reset else unit_done
  if is_idle mgr'.state then unit_done else emit schedule_monitor
  pure mgr'

-- What `mgpu_pipeline_init` makes of the zeroed memory.
abbrev pub initial_mgr : PipelineMgr
initial_mgr = record {
  state = pipe_idle;
  vertex_fetch = record {
    base_addr = 0;
    vertex_count = 0;
    vertex_stride = 0;
    current_vertex = 0;
    fetch_active = false;
  };
  rasterizer = record { raster_active = false; triangles_processed = 0; fragments_generated = 0 };
  fragment = record { texture_enabled = false; fragments_processed = 0; pixels_written = 0 };
  vertex_shader = record { slot = 0; kind = 0; halted = false; cycles_executed = 0 };
  fragment_shader = record { slot = 0; kind = 0; halted = false; cycles_executed = 0 };
  config = record {
    shader_slot = 0;
    cull_enable = false;
    cull_mode = 0;
    texture_enable = false;
    texture_slot = 0;
    width = 640;
    height = 480;
    format = 0;
    base_addr = 0;
  };
  stages = λ i. initial_stage;
  completed = 0;
  frames_rendered = 0;
  total_vertices = 0;
  total_primitives = 0;
  total_fragments = 0;
  total_pixels = 0;
  frame_start_time = 0;
  frame_end_time = 0;
  pipeline_errors = 0;
  last_error_stage = pipe_idle;
}

-- `mgpu_pipeline_init`, with whether `kzalloc` gives memory.
pub pipeline_init : Bool → Status × Option PipelineMgr
pipeline_init false = (err enomem, none)
pipeline_init true = (ok, some initial_mgr)

-- `mgpu_pipeline_fini`, which leaves no manager.
pub pipeline_fini : Hw → Option PipelineMgr → Io (Option PipelineMgr)
pipeline_fini hw none = pure none
pipeline_fini hw (some mgr) = do
  emit cancel_pipeline
  emit cancel_monitor
  if is_idle mgr.state then unit_done else (pipeline_flush hw >>= λ ret. unit_done)
  pure none
