-- ===== src/Pipeline/Frame/Tests.antt =====
-- Frames of a device that is never busy, and of one that halts.
use package.amdhardware_kernel.Common.{ℕ, true, false, ◌≡◌, refl, List, [], ◌∷◌, none, some, arith}
use package.amdhardware_kernel.Bus.{
  cancel_pipeline, cancel_monitor, Trace, Hw, Io, pure, Status, ok, err, eio, einval, enodev,
}
use package.amdhardware_kernel.Core.{poll_until}
use package.amdhardware_kernel.Pipeline.{
  PipelineMgr, pipe_idle, pipeline_get_stats, pipeline_reset_stats,
}
use package.amdhardware_kernel.Pipeline.Stages.{execute_stage}
use package.amdhardware_kernel.Pipeline.Stages.Own.{Outcome}
use package.amdhardware_kernel.Pipeline.Stages.Counted.{Counted}
use package.amdhardware_kernel.Pipeline.Stages.Tally.{Ready}
use package.amdhardware_kernel.Pipeline.Frame.{
  DrawCall, Frame, pipeline_execute, draw_with, pipeline_draw, pipeline_init, pipeline_fini,
  initial_mgr, run_stages, advance,
}
use package.amdhardware_kernel.Pipeline.Frame.Others.{
  Call, resets_stats, executes, draws, monitors, others, run_calls,
}
use package.amdhardware_kernel.Pipeline.Frame.Returns.{pipeline_execute-returns}
use package.amdhardware_kernel.Pipeline.Frame.Totals.{pipeline_execute-Counted}
use package.amdhardware_kernel.Pipeline.Frame.Draws.{Totals, draw_times, draw_times-overcount}

abbrev idle_device : Hw
idle_device h r = 1

-- HALTED
abbrev halted_device : Hw
halted_device h r = 8

abbrev no_time : Trace → ℕ
no_time h = 0

abbrev alone : PipelineMgr → Io PipelineMgr
alone mgr = pure mgr

abbrev triangles : DrawCall
triangles = record {
  vertex_buffer = 0x1000;
  vertex_count = 6;
  vertex_stride = 0;
  vertex_shader_slot = 0;
  fragment_shader_slot = 1;
  cull_enable = false;
  cull_mode = 0;
  texture_enable = false;
  texture_slot = 0;
  framebuffer_addr = 0;
  async = false;
}

abbrev frame_mgr : Frame → PipelineMgr → PipelineMgr
frame_mgr (some (ret, mgr)) other = mgr
frame_mgr none other = other

abbrev frame_ret : Frame → Status
frame_ret (some (ret, mgr)) = ret
frame_ret none = err einval

abbrev one : Hw → PipelineMgr → PipelineMgr
unfolding draw_with run_stages advance execute_stage poll_until
one hw mgr = frame_mgr (draw_with hw no_time alone triangles mgr []).0 mgr

-- Two triangles a frame: the second frame counts its own fragments and those of the first again.
two_frames : (one idle_device (one idle_device initial_mgr)).total_fragments ≡ 600
unfolding one draw_with run_stages advance execute_stage poll_until
two_frames = refl

halts : frame_ret (draw_with halted_device no_time alone triangles initial_mgr []).0 ≡ err eio
unfolding draw_with run_stages advance execute_stage poll_until
halts = refl

abbrev six_vertices : PipelineMgr
six_vertices = record initial_mgr {
  vertex_fetch = record initial_mgr.vertex_fetch { base_addr = 0x1000; vertex_count = 6 };
}

-- Between two stages the statistics are reset, and another thread tries to execute.
abbrev busy_others : Trace → List Call
busy_others h = resets_stats ∷ executes ∷ []

abbrev drawing_others : Trace → List Call
drawing_others h = draws triangles ∷ monitors false ∷ []

-- A reset between the rasterizer and the fragment stage leaves more pixels than fragments.
pixels_after_reset :
    let mgr =
      frame_mgr
        (pipeline_execute idle_device no_time
          (others idle_device no_time busy_others)
          six_vertices
          []).0
        six_vertices in
    (mgr.total_fragments ≡ 0) × (mgr.total_pixels ≡ 200)
unfolding pipeline_execute run_stages advance execute_stage poll_until run_calls
    pipeline_reset_stats
pixels_after_reset = (refl, refl)

pipeline_execute-returns_example :
    (ret : Status) × (mgr' : PipelineMgr) × ((pipeline_execute halted_device no_time
        (others halted_device no_time busy_others)
        six_vertices
        []).0
      ≡ some (ret, mgr'))
    × (mgr'.state ≡ pipe_idle)
    × (mgr'.completed ≡ 0)
    × Outcome ret mgr'.last_error_stage
pipeline_execute-returns_example =
    pipeline_execute-returns halted_device no_time busy_others six_vertices [] refl

six_vertices-Counted : Counted 0 six_vertices
six_vertices-Counted = omega arith

pipeline_execute-Counted_example :
    (ret : Status) × (mgr' : PipelineMgr) × ((pipeline_execute idle_device no_time
        (others idle_device no_time drawing_others)
        six_vertices
        []).0
      ≡ some (ret, mgr'))
    × Counted 0 mgr'
pipeline_execute-Counted_example =
    pipeline_execute-Counted idle_device no_time drawing_others (λ h. refl) six_vertices [] refl
      six_vertices-Counted

idle_device-Ready : Ready idle_device
idle_device-Ready = record { idle = λ h. refl; live = λ h. refl }

draw_times-overcount_example :
    (mgr' : PipelineMgr) × ((draw_times idle_device-Ready no_time 3 triangles initial_mgr []).0
      ≡ some (ok, mgr'))
    × (mgr'.state ≡ pipe_idle)
    × Totals 6 1200 1200 600 mgr'
draw_times-overcount_example =
    draw_times-overcount idle_device-Ready no_time 3 triangles initial_mgr []
      (record { buffer = omega arith; vertices = omega arith; sync = refl }) refl (omega arith)
      (omega arith) (omega arith)

no_manager : (pipeline_draw idle_device no_time alone triangles none []).0 ≡ some (err enodev, none)
unfolding pipeline_draw
no_manager = refl

starts : pipeline_init true ≡ (ok, some initial_mgr)
unfolding pipeline_init
starts = refl

ends_idle :
    pipeline_fini idle_device (some initial_mgr) [] ≡ (none, cancel_monitor ∷ cancel_pipeline ∷ [])
unfolding pipeline_fini
ends_idle = refl

no_stats : (pipeline_get_stats false initial_mgr).0 ≡ err einval
unfolding pipeline_get_stats
no_stats = refl

copies_stats :
    (pipeline_get_stats true initial_mgr).1
    ≡ some (record {
      frames_rendered = 0;
      total_vertices = 0;
      total_primitives = 0;
      total_fragments = 0;
      total_pixels = 0;
      pipeline_errors = 0;
      stage_stats = λ i. (0, 0, true);
    })
unfolding pipeline_get_stats
copies_stats = refl
