-- ===== src/Pipeline.antt =====
-- kernel/drivers/gpu/mgpu/mgpu_pipeline.c: the state of the pipeline, its configuration and statistics,
-- flush, stall and resume. Fields that no code of the driver reads or sets, the names of the stages and
-- the time of their last activity are left out.
pub mod Flush
pub mod Running
pub mod Stages
pub mod Frame
mod Tests
use package.amdhardware_kernel.Common.{
  ℕ, ◌+◌, ◌∷◌, Bool, true, false, Option, none, some, ◌==◌, ◌||◌, if◌then◌else◌, bit_and, bit_or,
  not32, u32, u64,
}
use package.amdhardware_kernel.Bus.{
  spin, wake, stage_wait, Hw, Io, ◌>>=◌, ◌>>◌, pure, read, emit, write, etimedout, einval, Status,
  ok, err,
}
use package.amdhardware_kernel.Bus.Regs.{
  reg_control, reg_vertex_base, reg_vertex_count, reg_vertex_stride, ctrl_enable, ctrl_pause,
  ctrl_flush_cache, status_busy,
}
use package.amdhardware_kernel.Core.{poll_idle, timed_out}
use package.amdhardware_kernel.Klist.{update}

-- `enum mgpu_pipeline_state`
pub data PipelineState : Type 0 where
  pipe_idle pipe_fetch_vertex pipe_execute_shader pipe_rasterize pipe_fragment : PipelineState
  pipe_done : PipelineState

-- `struct mgpu_pipeline_stage`
pub record PipelineStage : Type 0 where
  pub status_bit : ℕ
  pub control_bit : ℕ
  pub enabled : Bool
  pub processed_items : ℕ
  pub stall_cycles : ℕ

pub record VertexFetchState : Type 0 where
  pub base_addr : ℕ
  pub vertex_count : ℕ
  pub vertex_stride : ℕ
  pub current_vertex : ℕ
  pub fetch_active : Bool

pub record RasterizerState : Type 0 where
  pub raster_active : Bool
  pub triangles_processed : ℕ
  pub fragments_generated : ℕ

pub record FragmentState : Type 0 where
  pub texture_enabled : Bool
  pub fragments_processed : ℕ
  pub pixels_written : ℕ

pub record ShaderExecState : Type 0 where
  pub slot : ℕ
  pub kind : ℕ
  pub halted : Bool
  pub cycles_executed : ℕ

-- `struct mgpu_pipeline_config`, its four parts in one; `shader_slot` is `shaders.fragment_shader_slot`.
pub record PipelineConfig : Type 0 where
  pub shader_slot : ℕ
  pub cull_enable : Bool
  pub cull_mode : ℕ
  pub texture_enable : Bool
  pub texture_slot : ℕ
  pub width : ℕ
  pub height : ℕ
  pub format : ℕ
  pub base_addr : ℕ

-- `struct mgpu_pipeline_mgr`; `completed` counts the calls of `complete` for
-- `pipeline_complete`.
pub record PipelineMgr : Type 0 where
  pub state : PipelineState
  pub vertex_fetch : VertexFetchState
  pub rasterizer : RasterizerState
  pub fragment : FragmentState
  pub vertex_shader : ShaderExecState
  pub fragment_shader : ShaderExecState
  pub config : PipelineConfig
  pub stages : ℕ → PipelineStage
  pub completed : ℕ
  pub frames_rendered : ℕ
  pub total_vertices : ℕ
  pub total_primitives : ℕ
  pub total_fragments : ℕ
  pub total_pixels : ℕ
  pub frame_start_time : ℕ
  pub frame_end_time : ℕ
  pub pipeline_errors : ℕ
  pub last_error_stage : PipelineState

-- `mgpu_pipeline_init_stages` writes this in each of the five entries.
abbrev pub initial_stage : PipelineStage
initial_stage = record {
  status_bit = status_busy;
  control_bit = ctrl_enable;
  enabled = true;
  processed_items = 0;
  stall_cycles = 0;
}

-- `stages[i].processed_items += n`
abbrev pub add_items : ℕ → ℕ → (ℕ → PipelineStage) → ℕ → PipelineStage
add_items i n stages =
    update stages i (record (stages i) { processed_items = u64 ((stages i).processed_items + n) })

pub config_vertex_fetch : ℕ → ℕ → ℕ → PipelineMgr → Io (Status × PipelineMgr)
config_vertex_fetch base_addr vertex_count vertex_stride mgr =
    if base_addr == 0 || vertex_count == 0 then pure (err einval, mgr) else do
      let stride = if vertex_stride == 0 then 44 else vertex_stride
      write reg_vertex_base base_addr
      write reg_vertex_count vertex_count
      write reg_vertex_stride stride
      pure (
        ok,
        record mgr {
          vertex_fetch = record mgr.vertex_fetch {
            base_addr = base_addr;
            vertex_count = vertex_count;
            vertex_stride = stride;
            current_vertex = 0;
          };
        },
      )

pub config_rasterizer : Bool → ℕ → PipelineMgr → PipelineMgr
config_rasterizer cull_enable cull_mode mgr = record mgr {
  config = record mgr.config { cull_enable = cull_enable; cull_mode = cull_mode };
}

pub config_fragment : Bool → ℕ → PipelineMgr → PipelineMgr
config_fragment texture_enable texture_slot mgr = record mgr {
  config = record mgr.config { texture_enable = texture_enable; texture_slot = texture_slot };
  fragment = record mgr.fragment { texture_enabled = texture_enable };
}

pub config_framebuffer : ℕ → PipelineMgr → PipelineMgr
config_framebuffer base_addr mgr = record mgr {
  config = record mgr.config { width = 640; height = 480; format = 0x8888; base_addr = base_addr };
}

module _ (hw : Hw) where
  pub pipeline_flush : Io Status
  pipeline_flush = do
    control ← read hw reg_control
    write reg_control (bit_or control ctrl_flush_cache)
    timeout ← poll_idle hw (spin 10) 1000
    write reg_control control
    pure (if timed_out timeout then err etimedout else ok)

  pub pipeline_stall : Io Status
  pipeline_stall = do
    control ← read hw reg_control
    write reg_control (bit_or control ctrl_pause)
    pure ok

  pub pipeline_resume : Io Status
  pipeline_resume = do
    control ← read hw reg_control
    write reg_control (bit_and control (not32 ctrl_pause))
    emit (wake stage_wait)
    pure ok

-- `struct mgpu_pipeline_stats`, with the totals in the order in which they are copied
pub record PipelineStats : Type 0 where
  pub frames_rendered : ℕ
  pub total_vertices : ℕ
  pub total_primitives : ℕ
  pub total_fragments : ℕ
  pub total_pixels : ℕ
  pub pipeline_errors : ℕ
  pub stage_stats : ℕ → ℕ × ℕ × Bool

-- The argument says whether `stats` is a pointer or NULL.
unfoldable pub pipeline_get_stats : Bool → PipelineMgr → Status × Option PipelineStats
pipeline_get_stats false mgr = (err einval, none)
pipeline_get_stats true mgr = (
  ok,
  some (record {
    frames_rendered = mgr.frames_rendered;
    total_vertices = mgr.total_vertices;
    total_primitives = mgr.total_primitives;
    total_fragments = mgr.total_fragments;
    total_pixels = mgr.total_pixels;
    pipeline_errors = mgr.pipeline_errors;
    stage_stats =
        λ i. ((mgr.stages i).processed_items, (mgr.stages i).stall_cycles, (mgr.stages i).enabled);
  }),
)

unfoldable pub pipeline_reset_stats : PipelineMgr → PipelineMgr
pipeline_reset_stats mgr = record mgr {
  frames_rendered = 0;
  total_vertices = 0;
  total_primitives = 0;
  total_fragments = 0;
  total_pixels = 0;
  pipeline_errors = 0;
  stages = λ i. record (mgr.stages i) { processed_items = 0; stall_cycles = 0 };
}
