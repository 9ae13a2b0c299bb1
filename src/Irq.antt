-- ===== src/Irq.antt =====
-- kernel/drivers/gpu/mgpu/mgpu_irq.c: the two halves of the interrupt handler, and what turns
-- interrupts on and off.
pub mod Tasklet
mod Tests
use package.amdhardware_kernel.Common.{
  ℕ, bit_or, ◌≡◌, Bool, true, false, List, [], ◌∷◌, arith, ◌==◌, if◌then◌else◌, all_ones, flag,
}
use package.amdhardware_kernel.Bus.{
  rd, wr, Trace, Hw, Io, ◌>>=◌, ◌>>◌, pure, read, emit, write, etimedout, erestartsys, Status, ok,
  err, unit_done, service, tasklet_init, tasklet_schedule, tasklet_disable, tasklet_enable,
  tasklet_kill, request_irq, free_irq, synchronize_irq,
}
use package.amdhardware_kernel.Bus.Regs.{
  reg_irq_status, reg_irq_enable, reg_irq_ack, irq_cmd_complete, irq_error, irq_fence,
  irq_queue_empty, irq_shader_halt, irq_perf_counter,
}

-- The mask of `mgpu_irq_enable`: `debug` is CONFIG_MGPU_DEBUG, `profiling` the device's flag.
pub irq_mask : Bool → Bool → ℕ
irq_mask debug profiling =
    let mask = bit_or irq_cmd_complete (bit_or irq_error (bit_or irq_fence irq_queue_empty)) in
    let mask' = if debug then bit_or mask irq_shader_halt else mask in
    if profiling then bit_or mask' irq_perf_counter else mask'

unfoldable pub irq_enable : Bool → Bool → Io (Unit {0})
irq_enable debug profiling = write reg_irq_enable (irq_mask debug profiling)

unfoldable pub irq_disable : Io (Unit {0})
irq_disable = do write reg_irq_enable 0; write reg_irq_ack all_ones

-- `mgpu_irq_handler`: IRQ_HANDLED or IRQ_NONE, and the new `irq_status`.
pub irq_handler : Hw → ℕ → Io (Bool × ℕ)
irq_handler hw irq_status = do
  status ← read hw reg_irq_status
  if status == 0 then pure (false, irq_status) else do
    write reg_irq_ack status
    emit (service tasklet_schedule)
    pure (true, bit_or irq_status status)

-- `mgpu_irq_init` with the answer of `request_irq`; `irq_status` is 0 after it.
unfoldable pub irq_init : Bool → Bool → Status → Io Status
irq_init debug profiling (err e) = do
  emit (service tasklet_init)
  emit (service request_irq)
  pure (err e)
irq_init debug profiling ok = do
  emit (service tasklet_init)
  emit (service request_irq)
  irq_enable debug profiling
  pure ok

-- `registered` is `mdev->irq >= 0`.
unfoldable pub irq_fini : Bool → Io (Unit {0})
irq_fini registered = do
  irq_disable
  if registered then emit (service free_irq) else unit_done
  emit (service tasklet_kill)

pub irq_suspend : Io Status
irq_suspend = do
  irq_disable
  emit (service synchronize_irq)
  emit (service tasklet_disable)
  pure ok

-- The new `irq_status` comes with the status.
pub irq_resume : Bool → Bool → Io (Status × ℕ)
irq_resume debug profiling = do
  write reg_irq_ack all_ones
  emit (service tasklet_enable)
  irq_enable debug profiling
  pure (ok, 0)

pub irq_force : ℕ → ℕ → Io ℕ
irq_force irq_status mask = do emit (service tasklet_schedule); pure (bit_or irq_status mask)

-- `mgpu_irq_wait`: the rounds that start before the deadline, each with the value of `last_irq` and
-- with `signal_pending`, and the value of `last_irq` after them.
pub irq_wait : ℕ → List (ℕ × Bool) → ℕ → Status
irq_wait mask [] last_irq = if flag last_irq mask then ok else err etimedout
irq_wait mask ((seen, pending) ∷ rounds) last_irq =
    let rest = irq_wait mask rounds last_irq in
    if flag seen mask
    then (if flag last_irq mask then ok else err etimedout)
    else if pending
    then err erestartsys
    else rest

-- The half of the handler that runs in the interrupt acknowledges what it read and adds it to what
-- waits for the tasklet, which it schedules; it leaves everything when nothing is pending.
pub irq_handler_lem :
    (hw : Hw) (irq_status : ℕ) (h : Trace)
    → let status = hw h reg_irq_status in
      irq_handler hw irq_status h ≡ (
        if status == 0 then ((false, irq_status), rd reg_irq_status ∷ h) else (
          (true, bit_or irq_status status),
          service tasklet_schedule ∷ wr reg_irq_ack status ∷ rd reg_irq_status ∷ h,
        ))
unfolding irq_handler
irq_handler_lem hw irq_status h = ground arith
