-- ===== src/Calls.antt =====
-- The other calls that kernel/drivers/gpu/mgpu/mgpu_uapi.c has for user space: contexts, capabilities,
-- performance counters, the state of the pipeline, barriers and markers. The repository does not
-- define their argument structures and flags: a structure has the fields that the code reads or
-- writes, and a flag is a Boolean.
pub mod Render
pub mod Sync
mod Tests
use package.amdhardware_kernel.Common.{
  ℕ, zero, suc, ◌+◌, ◌*◌, ◌/◌, ◌^◌, bit_and, bit_or, Bool, true, false, ◌||◌, Option, none, some,
  List, ◌≡◌, ◌<◌, arith, [], ◌∷◌, leb, ◌==◌, if◌then◌else◌, u32, not32, flag,
}
use package.amdhardware_kernel.Bus.{
  Trace, Hw, Io, spin, pure, read, write, emit, unit_done, einval, Status, ok, err,
}
use package.amdhardware_kernel.Bus.{◌>>=◌, ◌>>◌}
use package.amdhardware_kernel.Bus.Regs.{
  reg_version, reg_caps, reg_control, reg_scratch, reg_irq_enable, reg_instr_mem_size,
  ctrl_flush_cache, irq_perf_counter, cap_multi_queue, max_queues,
}
use package.amdhardware_kernel.Shader.{ShaderMgr, shader_vertex, shader_fragment, shader_bind}
use package.amdhardware_kernel.Gem.Offsets.{RbTree}
use package.amdhardware_kernel.Gem.Locking.{Step, returned, list_del, bo_put_at}
use package.amdhardware_kernel.Gem.Locking

-- `struct mgpu_file_context`: its device, the addresses of its objects, the pending fences, which no
-- code adds, and the counts.
pub record FileContext : Type 0 where
  pub mdev : ℕ
  pub bo_list : List ℕ
  pub fence_list : List ℕ
  pub submit_count : ℕ
  pub bo_count : ℕ
  pub fence_count : ℕ

-- `mgpu_create_context`, given whether `kzalloc` succeeds.
pub create_context : Bool → ℕ → Option FileContext
create_context false mdev = none
create_context true mdev = some (record {
  mdev = mdev;
  bo_list = [];
  fence_list = [];
  submit_count = 0;
  bo_count = 0;
  fence_count = 0;
})

-- `ctx->lock` is taken by nothing else.
module _ (rb : RbTree) where
  put_all : List ℕ → Step
  put_all [] w = returned w
  put_all (p ∷ ps) w = Locking.◌>>◌ (Locking.◌>>◌ (list_del p) (bo_put_at rb p)) (put_all ps) w

  -- `mgpu_destroy_context` of a pointer or NULL.
  pub destroy_context : Option FileContext → Step
  unfolding put_all
  destroy_context none w = returned w
  destroy_context (some ctx) w = put_all ctx.bo_list w

-- `struct mgpu_caps_query`
pub record CapsQuery : Type 0 where
  pub version_major : ℕ
  pub version_minor : ℕ
  pub version_patch : ℕ
  pub version_build : ℕ
  pub has_vertex_shader : Bool
  pub has_fragment_shader : Bool
  pub has_texture : Bool
  pub has_float16 : Bool
  pub has_float32 : Bool
  pub has_int32 : Bool
  pub has_atomic : Bool
  pub has_fence : Bool
  pub has_multi_queue : Bool
  pub has_preemption : Bool
  pub max_texture_size : ℕ
  pub max_vertex_count : ℕ
  pub max_shader_size : ℕ
  pub num_shader_cores : ℕ
  pub num_texture_units : ℕ
  pub num_raster_units : ℕ
  pub num_queues : ℕ
  pub instruction_mem_size : ℕ
  pub max_bo_size : ℕ
  pub display_width : ℕ
  pub display_height : ℕ
  pub display_formats : ℕ

-- `MGPU_VERSION_MAJOR` and so on: the byte of a word from a bit on.
abbrev pub version_byte : ℕ → ℕ → ℕ
version_byte v bit = bit_and (v / 2 ^ bit) 0xFF

-- What `mgpu_query_caps` fills in from the two registers; the format is DRM's constant.
pub caps_of : ℕ → ℕ → ℕ → CapsQuery
caps_of format caps version = record {
  version_major = version_byte version 24;
  version_minor = version_byte version 16;
  version_patch = version_byte version 8;
  version_build = version_byte version 0;
  has_vertex_shader = flag caps 1;
  has_fragment_shader = flag caps 2;
  has_texture = flag caps 4;
  has_float16 = flag caps 8;
  has_float32 = flag caps 16;
  has_int32 = flag caps 32;
  has_atomic = flag caps 64;
  has_fence = flag caps 128;
  has_multi_queue = flag caps cap_multi_queue;
  has_preemption = flag caps 512;
  max_texture_size = 256;
  max_vertex_count = 65536;
  max_shader_size = reg_instr_mem_size;
  num_shader_cores = 1;
  num_texture_units = 1;
  num_raster_units = 1;
  num_queues = if flag caps cap_multi_queue then max_queues else 1;
  instruction_mem_size = reg_instr_mem_size;
  max_bo_size = 256 * 1024 * 1024;
  display_width = 640;
  display_height = 480;
  display_formats = format;
}

-- `struct mgpu_pipeline_state`
pub record PipelineState : Type 0 where
  pub vertex_shader_slot : ℕ
  pub fragment_shader_slot : ℕ

-- `mgpu_set_pipeline_state`: the results of `mgpu_shader_bind` are not looked at, and the guards of its
-- calls hold whenever they are reached.
pub set_pipeline_state : PipelineState → Option ShaderMgr → Io Status
set_pipeline_state state mgr =
    if leb 16 state.vertex_shader_slot || leb 16 state.fragment_shader_slot
    then pure (err einval)
    else do
      _ ← shader_bind state.vertex_shader_slot shader_vertex mgr
      _ ← shader_bind state.fragment_shader_slot shader_fragment mgr
      pure ok

-- The loop of `mgpu_insert_debug_marker` over the bytes of the marker before its NUL, each as the u32
-- that the addition takes it as, with the rounds that are left before `i` is 64.
pub marker_hash : ℕ → ℕ → List ℕ → ℕ
marker_hash zero hash marker = hash
marker_hash (suc left) hash [] = hash
marker_hash (suc left) hash (c ∷ cs) = marker_hash left (u32 (hash * 31 + c)) cs

-- `mgpu_insert_debug_marker`
pub insert_debug_marker : List ℕ → Io Status
unfolding marker_hash
insert_debug_marker marker = do write reg_scratch (marker_hash 64 0 marker); pure ok

abbrev pub ctrl_perf_counter : ℕ
ctrl_perf_counter = 32

module _ (hw : Hw) where
  -- `mgpu_query_caps`
  pub query_caps : ℕ → Io (Status × CapsQuery)
  query_caps format = do
    caps ← read hw reg_caps
    version ← read hw reg_version
    pure (ok, caps_of format caps version)

  -- `mgpu_perf_counter_enable`: the mask is only logged.
  pub perf_counter_enable : ℕ → Io Status
  perf_counter_enable counter_mask = do
    control ← read hw reg_control
    write reg_control (bit_or control ctrl_perf_counter)
    enabled ← read hw reg_irq_enable
    write reg_irq_enable (bit_or enabled irq_perf_counter)
    pure ok

  pub perf_counter_disable : Io Status
  perf_counter_disable = do
    control ← read hw reg_control
    write reg_control (bit_and control (not32 ctrl_perf_counter))
    enabled ← read hw reg_irq_enable
    write reg_irq_enable (bit_and enabled (not32 irq_perf_counter))
    pure ok

  -- `mgpu_memory_barrier`, given whether the flush of the cache is requested.
  pub memory_barrier : Bool → Io (Unit {0})
  memory_barrier false = unit_done
  memory_barrier true = do
    control ← read hw reg_control
    write reg_control (bit_or control ctrl_flush_cache)
    emit (spin 10)
    write reg_control (bit_and (bit_or control ctrl_flush_cache) (not32 ctrl_flush_cache))

-- Whatever the slots below 16 hold, and with no shader manager too, the state is accepted.
pub set_pipeline_state-ok :
    (state : PipelineState) (mgr : Option ShaderMgr) (h : Trace)
    → state.vertex_shader_slot < 16
    → state.fragment_shader_slot < 16
    → (set_pipeline_state state mgr h).0 ≡ ok
unfolding set_pipeline_state
set_pipeline_state-ok state mgr h v f = ground arith
