-- ===== src/Irq/Tests.antt =====
-- The interrupt handlers on concrete devices.
use package.amdhardware_kernel.Common.{
  all_ones, bit_or, ◌≡◌, refl, true, false, none, some, [], ◌∷◌, ◌==◌, if◌then◌else◌,
}
use package.amdhardware_kernel.Bus.Regs.{
  reg_irq_enable, reg_irq_status, reg_irq_ack, irq_cmd_complete, irq_error, irq_fence,
}
use package.amdhardware_kernel.Bus.{
  ok, tasklet_disable, tasklet_enable, synchronize_irq, wr, Hw, erestartsys, err, service,
  tasklet_schedule,
}
use package.amdhardware_kernel.Irq.{
  irq_suspend, irq_resume, irq_force, irq_enable, irq_disable, irq_mask, irq_wait,
}
use package.amdhardware_kernel.Irq.Tasklet.{Device}

-- An error and a fence are pending.
abbrev pending : Hw
pending h r = if r == reg_irq_status then bit_or irq_error irq_fence else 0

abbrev device : Device
device = record {
  irq_status = bit_or irq_cmd_complete irq_fence;
  in_reset = false;
  cmd_ring = none;
  fence_ctx = some (record { cpu_addr = 7 ∷ []; dma_addr = 4096; seqno = 3; wait_list = [] });
  shader_mgr = none;
}

mask_full : irq_mask true true ≡ 63
unfolding irq_mask
mask_full = refl

wait_signal : irq_wait 4 ((0, false) ∷ (0, true) ∷ []) 0 ≡ err erestartsys
unfolding irq_wait
wait_signal = refl

suspended : irq_suspend [] ≡ (
  ok,
  service tasklet_disable
      ∷ service synchronize_irq
      ∷ wr reg_irq_ack all_ones
      ∷ wr reg_irq_enable 0
      ∷ [],
)
unfolding irq_suspend irq_disable
suspended = refl

resumed :
    irq_resume false true []
    ≡ ((ok, 0), wr reg_irq_enable 47 ∷ service tasklet_enable ∷ wr reg_irq_ack all_ones ∷ [])
unfolding irq_resume irq_enable irq_mask
resumed = refl

forced : irq_force 1 4 [] ≡ (5, service tasklet_schedule ∷ [])
unfolding irq_force
forced = refl
