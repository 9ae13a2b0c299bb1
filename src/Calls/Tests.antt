-- ===== src/Calls/Tests.antt =====
-- The calls of user space on concrete arguments.
use package.amdhardware_kernel.Bus.{wr, rd, spin}
use package.amdhardware_kernel.Bus.Regs.{reg_irq_enable, reg_control, reg_scratch}
use package.amdhardware_kernel.Calls.{
  perf_counter_enable, perf_counter_disable, memory_barrier, insert_debug_marker,
}
use package.amdhardware_kernel.Common.{
  ◌≡◌, ◌==◌, if◌then◌else◌, refl, true, false, none, some, [], ◌∷◌, arith,
}
use package.amdhardware_kernel.Bus.{Hw, eio, einval, ok, err}
use package.amdhardware_kernel.Bus.Regs.{reg_status, status_idle, status_error, reg_version}
use package.amdhardware_kernel.Core.{core_wait_idle}
use package.amdhardware_kernel.Gem.Tests.{gem, held, gem-Holds}
use package.amdhardware_kernel.Gem.Offsets.Tests.{plain}
use package.amdhardware_kernel.Gem.{find_bo}
use package.amdhardware_kernel.Gem.Locking.{
  LockedGem, returned, faulted, member, bo_put_at, bo_free_at,
}
use package.amdhardware_kernel.Calls.{
  FileContext, marker_hash, create_context, destroy_context, query_caps, caps_of,
  set_pipeline_state,
}
use package.amdhardware_kernel.Calls.Render.{
  RenderJob, execute_render, render_job, execute_render-kept,
}

-- "ab"
hashed : marker_hash 64 0 (97 ∷ 98 ∷ []) ≡ 3105
unfolding marker_hash
hashed = refl

abbrev open_gem : LockedGem
open_gem = record { gem = gem 1; bo_lock = false; poisoned = [] }

closed : destroy_context plain (create_context true 7) open_gem ≡ returned open_gem
unfolding destroy_context create_context
closed = refl

-- The last put of an object on the context's list takes it off a second time.
abbrev holder : FileContext
holder = record {
  mdev = 7;
  bo_list = 1 ∷ [];
  fence_list = [];
  submit_count = 0;
  bo_count = 1;
  fence_count = 0;
}

unlinked_twice : destroy_context plain (some holder) open_gem ≡ faulted
unfolding destroy_context bo_put_at bo_free_at member find_bo
unlinked_twice = refl

abbrev versioned : Hw
versioned h r = if r == reg_version then 0x01020304 else 256

four_bytes :
    let caps = (query_caps versioned 0 []).0.1 in
    (caps.version_major ≡ 1) × (caps.version_build ≡ 4) × (caps.num_queues ≡ 16)
unfolding query_caps caps_of
four_bytes = (refl, refl, refl)

slot_16 :
    (set_pipeline_state (record { vertex_shader_slot = 16; fragment_shader_slot = 0 }) none []).0
    ≡ err einval
unfolding set_pipeline_state
slot_16 = refl

abbrev job : RenderJob
job = record {
  vertex_count = 3;
  vertex_buffer_handle = 1;
  vertex_stride = 0;
  vertex_shader_handle = 0;
  vertex_shader_pc = 0;
  sync = true;
}

abbrev idle : Hw
idle h r = if r == reg_status then status_idle else 0

abbrev failing : Hw
failing h r = if r == reg_status then status_error else 0

execute_render-kept_example :
    let out = render_job idle 2 job (held 3) [] in
    execute_render idle plain 2 7 job (gem 2) [] ≡ some ((out.0, gem 2), out.1)
execute_render-kept_example =
    execute_render-kept idle plain 2 7 job (held 2) (gem 2) [] (gem-Holds 2) (omega arith)
      (omega arith) (omega arith)

rendered : (render_job idle 2 job (held 2) []).0 ≡ ok
unfolding core_wait_idle render_job
rendered = refl

render_failed : (render_job failing 2 job (held 2) []).0 ≡ err eio
unfolding core_wait_idle render_job
render_failed = refl

counted :
    (perf_counter_enable idle 7 []).1
    ≡ wr reg_irq_enable 32 ∷ rd reg_irq_enable ∷ wr reg_control 32 ∷ rd reg_control ∷ []
unfolding perf_counter_enable
counted = refl

uncounted :
    (perf_counter_disable versioned []).1
    ≡ wr reg_irq_enable 256 ∷ rd reg_irq_enable ∷ wr reg_control 256 ∷ rd reg_control ∷ []
unfolding perf_counter_disable
uncounted = refl

flushed :
    (memory_barrier idle true []).1
    ≡ wr reg_control 0 ∷ spin 10 ∷ wr reg_control 16 ∷ rd reg_control ∷ []
unfolding memory_barrier
flushed = refl

marked : (insert_debug_marker (97 ∷ 98 ∷ []) []).1 ≡ wr reg_scratch 3105 ∷ []
unfolding insert_debug_marker marker_hash
marked = refl
