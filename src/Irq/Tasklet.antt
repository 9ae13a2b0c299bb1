-- ===== src/Irq/Tasklet.antt =====
-- `mgpu_irq_tasklet_func`: which handler runs for which interrupt. What the handler of performance
-- counters (mgpu_pm.c) does is an argument.
use package.amdhardware_kernel.Common.{ℕ, ◌≡◌, Bool, Option, arith, if◌then◌else◌, flag}
use package.amdhardware_kernel.Bus.{
  queue_wait, wake, Trace, Hw, Io, ◌>>=◌, ◌>>◌, pure, emit, unit_done,
}
use package.amdhardware_kernel.Bus.Regs.{
  irq_cmd_complete, irq_error, irq_fence, irq_queue_empty, irq_shader_halt, irq_perf_counter,
}
use package.amdhardware_kernel.Core.{core_handle_error}
use package.amdhardware_kernel.Ring.{Ring}
use package.amdhardware_kernel.Ring.Power.{cmdq_irq_handler}
use package.amdhardware_kernel.Fence.{FenceContext, fence_process}
use package.amdhardware_kernel.Shader.{ShaderMgr}
use package.amdhardware_kernel.Shader.Halt.{shader_handle_halt}

-- The fields of `struct mgpu_device` that the tasklet's handlers use.
pub record Device : Type 0 where
  pub irq_status : ℕ
  pub in_reset : Bool
  pub cmd_ring : Option Ring
  pub fence_ctx : Option FenceContext
  pub shader_mgr : Option ShaderMgr

module _ (hw : Hw) (perf : Io (Unit {0})) (jiffies : ℕ) where
  pub on_cmd_complete : ℕ → Device → Io Device
  on_cmd_complete status dev =
      if flag status irq_cmd_complete
      then (do
        ring ← cmdq_irq_handler hw jiffies dev.cmd_ring
        pure (record dev { cmd_ring = ring }))
      else pure dev

  pub on_error : ℕ → Device → Io (Unit {0})
  on_error status dev =
      if flag status irq_error then core_handle_error hw dev.in_reset else unit_done

  pub on_fence : ℕ → Device → Io Device
  on_fence status dev =
      if flag status irq_fence
      then (do ctx ← fence_process hw dev.fence_ctx; pure (record dev { fence_ctx = ctx }))
      else pure dev

  pub on_halt : ℕ → Device → Io (Unit {0})
  on_halt status dev =
      if flag status irq_shader_halt
      then shader_handle_halt hw dev.in_reset dev.shader_mgr
      else unit_done

  pub irq_tasklet : Device → Io Device
  irq_tasklet dev = do
    dev₁ ← on_cmd_complete dev.irq_status (record dev { irq_status = 0 })
    on_error dev.irq_status dev₁
    dev₂ ← on_fence dev.irq_status dev₁
    if flag dev.irq_status irq_queue_empty then emit (wake queue_wait) else unit_done
    on_halt dev.irq_status dev₂
    if flag dev.irq_status irq_perf_counter then perf else unit_done
    pure dev₂

  -- The tasklet changes the command ring by the handler of completed commands and the fences by that
  -- of fences, each exactly when its interrupt was saved, and leaves no interrupt saved and the rest
  -- of the device as it was.
  pub irq_tasklet_lem :
      (dev : Device) (h : Trace)
      → let done = (irq_tasklet dev h).0 in
        let h₁ = (on_cmd_complete dev.irq_status (record dev { irq_status = 0 }) h).1 in
        let h₂ = (on_error dev.irq_status dev h₁).1 in
        (done.irq_status ≡ 0)
        × (done.cmd_ring ≡ (
            if flag dev.irq_status irq_cmd_complete
            then (cmdq_irq_handler hw jiffies dev.cmd_ring h).0
            else dev.cmd_ring))
        × (done.fence_ctx ≡ (
            if flag dev.irq_status irq_fence
            then (fence_process hw dev.fence_ctx h₂).0
            else dev.fence_ctx))
        × (done.in_reset ≡ dev.in_reset)
        × (done.shader_mgr ≡ dev.shader_mgr)
  unfolding irq_tasklet on_cmd_complete on_fence on_error on_halt
  irq_tasklet_lem dev h = (ground arith, ground arith, ground arith, ground arith, ground arith)
