-- ===== src/Core/Init.antt =====
-- `mgpu_core_init`, `mgpu_core_fini` and `mgpu_core_dump_state`.
mod Tests
use package.amdhardware_kernel.Common.{
  ℕ, ◌≡◌, ◌↔◌, Bool, Option, none, some, ◌∷◌, arith, if◌then◌else◌, flag,
}
use package.amdhardware_kernel.Bus.{
  rd, wr, Trace, Hw, Io, ◌>>=◌, ◌>>◌, pure, read, emit, write, Status, ok, err, service,
  request_irq, tasklet_init,
}
use package.amdhardware_kernel.Bus.Regs.{
  reg_version, reg_caps, reg_control, reg_status, reg_irq_status, reg_irq_enable, reg_cmd_head,
  reg_cmd_tail, reg_fence_value, ctrl_enable, cap_multi_queue, max_queues, max_engines,
}
use package.amdhardware_kernel.Core.{Caps, core_reset, core_test_alive}
use package.amdhardware_kernel.Irq.{irq_init, irq_fini, irq_enable, irq_mask}

-- The fields that are set from the registers VERSION and CAPS.
pub caps_of : ℕ → ℕ → Caps
caps_of version caps = record {
  version = version;
  caps = caps;
  num_queues = if flag caps cap_multi_queue then max_queues else 1;
  num_engines = if flag caps cap_multi_queue then max_engines else 1;
}

module _ (hw : Hw) where
  -- The part after `mgpu_irq_init`.
  pub core_enabled : Io Status
  core_enabled = do
    write reg_control ctrl_enable
    alive ← core_test_alive hw
    elim alive [ ok ↦ pure ok | err e ↦ (write reg_control 0 >> pure (err e)) ]

  pub core_detected : Bool → Bool → Status → Io (Status × Option Caps)
  core_detected debug profiling registered = do
    version ← read hw reg_version
    caps ← read hw reg_caps
    irq ← irq_init debug profiling registered
    status ← elim irq [ ok ↦ core_enabled | err e ↦ pure (err e) ]
    pure (status, some (caps_of version caps))

  -- `mgpu_core_init`: the status, and the fields where they were set. `registered` is the answer of
  -- `request_irq`.
  pub core_init : Bool → Bool → Status → Io (Status × Option Caps)
  core_init debug profiling registered = do
    reset ← core_reset hw
    elim reset [ ok ↦ core_detected debug profiling registered | err e ↦ pure (err e, none) ]

  pub core_fini : Bool → Io (Unit {0})
  core_fini registered = do
    write reg_irq_enable 0
    write reg_control 0
    reset ← core_reset hw
    irq_fini registered

pub core_dump_state : Hw → Io (Unit {0})
core_dump_state hw = do
  emit (rd reg_version)
  emit (rd reg_caps)
  emit (rd reg_control)
  emit (rd reg_status)
  emit (rd reg_irq_status)
  emit (rd reg_irq_enable)
  emit (rd reg_cmd_head)
  emit (rd reg_cmd_tail)
  emit (rd reg_fence_value)

-- The bus when the interrupt was granted and the GPU is enabled.
abbrev pub enabled_bus : Hw → Bool → Bool → Trace → Trace
enabled_bus hw debug profiling h =
    wr reg_control ctrl_enable
    ∷ wr reg_irq_enable (irq_mask debug profiling)
    ∷ service request_irq
    ∷ service tasklet_init
    ∷ rd reg_caps
    ∷ rd reg_version
    ∷ (core_reset hw h).1

-- The start succeeds exactly when the soft reset does, the interrupt is granted, and the GPU passes
-- the scratch test once it is enabled.
pub core_init-ok :
    (hw : Hw) (debug profiling : Bool) (registered : Status) (h : Trace)
    → ((core_init hw debug profiling registered h).0.0 ≡ ok) ↔ (
        ((core_reset hw h).0 ≡ ok)
        × (registered ≡ ok)
        × ((core_test_alive hw (enabled_bus hw debug profiling h)).0 ≡ ok))
unfolding core_init core_detected core_enabled caps_of irq_init irq_enable
core_init-ok hw debug profiling ok h = (λ e. ground arith, λ e. ground arith)
core_init-ok hw debug profiling (err c) h = (λ e. ground arith, λ e. ground arith)
