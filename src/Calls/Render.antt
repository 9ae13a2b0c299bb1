-- ===== src/Calls/Render.antt =====
-- `mgpu_execute_render` of kernel/drivers/gpu/mgpu/mgpu_uapi.c.
use package.amdhardware_kernel.Common.{
  ℕ, zero, suc, ◌+◌, ◌≡◌, ◌≢◌, refl, Bool, true, false, ◌||◌, Option, none, some, ◌∷◌, arith, ◌==◌,
  if◌then◌else◌, bit_or, u32, flag,
}
use package.amdhardware_kernel.Bus.{
  sleep, rd, Trace, Hw, Io, ◌>>=◌, ◌>>◌, pure, read, write, unit_done, eio, einval, etimedout,
  Status, ok, err,
}
use package.amdhardware_kernel.Bus.Regs.{
  reg_status, reg_control, reg_vertex_base, reg_vertex_count, reg_vertex_stride, reg_shader_pc,
  ctrl_enable, status_idle, status_error,
}
use package.amdhardware_kernel.Core.{timed_out, core_wait_idle}
use package.amdhardware_kernel.Gem.Offsets.{RbTree}
use package.amdhardware_kernel.Gem.{Bo, Gem, find_bo, put_bo, bo_lookup, bo_put}
use package.amdhardware_kernel.Gem.References.{
  Holds, with_refs, bo_lookup-Holds, live_after, bo_put-taken,
}

-- `struct mgpu_render_job`; `sync` is `MGPU_RENDER_FLAGS_SYNC` of its flags.
pub record RenderJob : Type 0 where
  pub vertex_count : ℕ
  pub vertex_buffer_handle : ℕ
  pub vertex_stride : ℕ
  pub vertex_shader_handle : ℕ
  pub vertex_shader_pc : ℕ
  pub sync : Bool

-- A status with the buffer objects and the bus after a call that does not fault.
abbrev pub Rendered : Type 0
Rendered = Option ((Status × Gem) × Trace)

module _ (hw : Hw) where
  -- The polling of a synchronous job: `timeout` after the loop, `none` for -1, and `ret`.
  unfoldable pub render_poll : ℕ → Status → Io (Option ℕ × Status)
  render_poll zero ret h = ((none, ret), h)
  render_poll (suc timeout) ret h =
      let rest = render_poll timeout ret (sleep 1 ∷ rd reg_status ∷ h) in
      if flag (hw h reg_status) status_idle
      then ((some timeout, ret), rd reg_status ∷ h)
      else if flag (hw h reg_status) status_error
      then ((some timeout, err eio), rd reg_status ∷ h)
      else rest

  -- The vertex fetch unit, the shader and the start.
  pub render_start : RenderJob → Bo → Io (Unit {0})
  render_start job vbo = do
    write reg_vertex_base (u32 vbo.dma_addr)
    write reg_vertex_count job.vertex_count
    write reg_vertex_stride (if job.vertex_stride == 0 then 44 else job.vertex_stride)
    if job.vertex_shader_handle == 0 then unit_done else write reg_shader_pc job.vertex_shader_pc
    control ← read hw reg_control
    write reg_control (bit_or control ctrl_enable)

  unfoldable pub render_wait : Bool → Status → Io Status
  unfolding render_poll
  render_wait false ret = pure ret
  render_wait true ret = do
    polled ← render_poll 1000 ret
    pure (if timed_out polled.0 then err etimedout else polled.1)

  -- With the vertex buffer: `polls` is the bound of `mgpu_core_wait_idle`.
  unfoldable pub render_job : ℕ → RenderJob → Bo → Io Status
  unfolding render_start render_wait
  render_job polls job vbo = do
    ret ← core_wait_idle hw polls
    render_start job vbo
    render_wait job.sync ret

  module _ (rb : RbTree) where
    unfoldable pub render_put : ℕ → Status × Trace → Gem → Rendered
    render_put p (ret, h) g = elim (bo_put rb p g) [
      | none ↦ none
      | some (done, g') ↦ some ((ret, g'), h)
    ]

    unfoldable pub render_found : ℕ → RenderJob → Option ℕ → Gem → Trace → Rendered
    unfolding render_job render_put
    render_found polls job none g h = some ((err einval, g), h)
    render_found polls job (some p) g h = elim (find_bo p g.bos) [
      | none ↦ none
      | some vbo ↦ render_put p (render_job polls job vbo h) g
    ]

    -- `mgpu_execute_render`
    unfoldable pub execute_render : ℕ → ℕ → RenderJob → Gem → Trace → Rendered
    unfolding render_found
    execute_render polls mdev job g h =
        if job.vertex_count == 0 || job.vertex_buffer_handle == 0
        then some ((err einval, g), h)
        else elim (bo_lookup mdev job.vertex_buffer_handle g) [
          | none ↦ none
          | some (vbo, g') ↦ render_found polls job vbo g' h
        ]

    render_found-held :
        (polls : ℕ) (job : RenderJob) (b : Bo) (g : Gem) (h : Trace)
        → find_bo b.addr g.bos ≡ some b
        → b.refcount ≢ 0
        → let taken = with_refs b (b.refcount + 1) in
          let out = render_job polls job taken h in
          render_found polls job (some b.addr) (record g { bos = put_bo taken g.bos }) h
          ≡ some ((out.0, g), out.1)
    unfolding render_found render_put
    render_found-held polls job b g h live used =
        rw
          (
            render_found,
            live_after g b (b.refcount + 1) live,
            render_put,
            bo_put-taken rb g b live used,
          )
          refl

    -- A job with vertices, and a handle that means a referenced object, runs with that object as its
    -- vertex buffer, and leaves the buffer objects, their references and their handles as they were,
    -- whether the device answers or not.
    pub execute_render-kept :
        (polls mdev : ℕ) (job : RenderJob) (b : Bo) (g : Gem) (h : Trace)
        → Holds g mdev job.vertex_buffer_handle b
        → b.refcount ≢ 0
        → job.vertex_count ≢ 0
        → job.vertex_buffer_handle ≢ 0
        → let out = render_job polls job (with_refs b (b.refcount + 1)) h in
          execute_render polls mdev job g h ≡ some ((out.0, g), out.1)
    unfolding execute_render
    execute_render-kept polls mdev job b g h v used count handle =
        rw (execute_render, bo_lookup-Holds g mdev job.vertex_buffer_handle b v)
          (ground (arith, render_found-held polls job b g h v.live used))

  late_error : (late : Bool) (ret : Status) → ret ≢ ok → (if late then err etimedout else ret) ≢ ok
  late_error late ret bad = ground (arith, bad)

  render_poll-error : (n : ℕ) (ret : Status) (h : Trace) → ret ≢ ok → (render_poll n ret h).0.1 ≢ ok
  unfolding render_poll
  render_poll-error zero ret h bad = bad
  render_poll-error (suc n) ret h bad =
      ground (arith, bad, render_poll-error n ret (sleep 1 ∷ rd reg_status ∷ h) bad)

  -- A job that was started after a wait that failed reports an error, even when the device finishes it.
  pub render_wait-error :
      (sync : Bool) (ret : Status) (h : Trace) → ret ≢ ok → (render_wait sync ret h).0 ≢ ok
  unfolding render_wait
  render_wait-error false ret h bad = bad
  render_wait-error true ret h bad =
      late_error (timed_out (render_poll 1000 ret h).0.0) (render_poll 1000 ret h).0.1
        (render_poll-error 1000 ret h bad)

  render_job-busy :
      (polls : ℕ) (job : RenderJob) (vbo : Bo) (h : Trace)
      → (core_wait_idle hw polls h).0 ≢ ok
      → (render_job polls job vbo h).0 ≢ ok
  unfolding render_job render_start
  render_job-busy polls job vbo h busy =
      let (ret, h₁) = core_wait_idle hw polls h in
      render_wait-error job.sync ret (render_start job vbo h₁).1 busy
