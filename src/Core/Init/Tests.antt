-- ===== src/Core/Init/Tests.antt =====
-- The stop and the dump of a device that is idle at once.
use package.amdhardware_kernel.Common.{◌≡◌, refl, false, [], ◌∷◌, all_ones}
use package.amdhardware_kernel.Bus.{Hw, rd, wr, sleep, service, tasklet_kill}
use package.amdhardware_kernel.Bus.Regs.{
  reg_version, reg_caps, reg_control, reg_status, reg_irq_status, reg_irq_enable, reg_irq_ack,
  reg_cmd_head, reg_cmd_tail, reg_fence_value, ctrl_reset, status_idle,
}
use package.amdhardware_kernel.Irq.{irq_fini, irq_disable}
use package.amdhardware_kernel.Core.{core_reset, poll_until}
use package.amdhardware_kernel.Core.Init.{core_fini, core_dump_state}

abbrev idle : Hw
idle h r = status_idle

fini_idle : core_fini idle false [] ≡ (
  tt,
  service tasklet_kill
      ∷ wr reg_irq_ack all_ones
      ∷ wr reg_irq_enable 0
      ∷ wr reg_irq_ack all_ones
      ∷ rd reg_status
      ∷ wr reg_control 0
      ∷ sleep 10
      ∷ wr reg_control ctrl_reset
      ∷ wr reg_control 0
      ∷ wr reg_irq_enable 0
      ∷ [],
)
unfolding core_fini core_reset poll_until irq_fini irq_disable
fini_idle = refl

dump_order : core_dump_state idle [] ≡ (
  tt,
  rd reg_fence_value
      ∷ rd reg_cmd_tail
      ∷ rd reg_cmd_head
      ∷ rd reg_irq_enable
      ∷ rd reg_irq_status
      ∷ rd reg_status
      ∷ rd reg_control
      ∷ rd reg_caps
      ∷ rd reg_version
      ∷ [],
)
unfolding core_dump_state
dump_order = refl
