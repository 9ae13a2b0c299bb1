-- ===== src/Bus.antt =====
-- The access to the device (kernel/drivers/gpu/mgpu/mgpu_internal.h): `mgpu_read` and `mgpu_write`.
-- The hardware is not driver code: it is any function that answers a read from all that went over
-- the bus before. A trace holds that history, the newest event first, with the delays of the
-- driver and the kernel services that it calls for their effect.
pub mod Regs
use package.amdhardware_kernel.Common.{ℕ, List, ◌∷◌}

pub data Waiters : Type 0 where
  fence_queue space_queue queue_wait reset_wait sched_wait stage_wait : Waiters

-- Calls of the kernel's interrupt and tasklet services.
pub data Service : Type 0 where
  tasklet_init tasklet_schedule tasklet_disable tasklet_enable tasklet_kill : Service
  request_irq free_irq synchronize_irq : Service

pub data Clock : Type 0 where
  core_clk mem_clk axi_clk : Clock

pub data Event : Type 0 where
  -- ioread32, iowrite32
  rd : ℕ → Event
  wr : ℕ → ℕ → Event
  -- msleep (milliseconds), udelay (microseconds), usleep_range
  sleep : ℕ → Event
  spin : ℕ → Event
  nap : ℕ → ℕ → Event
  -- wake_up, wake_up_all
  wake : Waiters → Event
  -- schedule_delayed_work of the reset work
  schedule_reset : Event
  -- schedule_delayed_work and cancel_delayed_work_sync of the scheduler's timeout work, and the start
  -- and the stop of its thread
  schedule_timeout cancel_timeout start_thread stop_thread : Event
  -- the same for the works of the health monitor
  schedule_health cancel_health schedule_hang_check cancel_hang_check : Event
  -- clk_prepare_enable where it succeeds, clk_disable_unprepare, and clk_set_rate where it succeeds
  clock_on clock_off : Clock → Event
  clock_rate : ℕ → Event
  -- pm_runtime_enable and pm_runtime_disable
  runtime_on runtime_off : Event
  -- schedule_work and cancel_work_sync of the pipeline's work, schedule_delayed_work and
  -- cancel_delayed_work_sync of its monitor
  schedule_pipeline cancel_pipeline schedule_monitor cancel_monitor : Event
  -- mgpu_coredump_capture
  capture : Event
  service : Service → Event

abbrev pub Trace : Type 0
Trace = List Event

abbrev pub Hw : Type 0
Hw = Trace → ℕ → ℕ

-- A computation that talks to the device.
abbrev pub Io : Type 0 → Type 0
Io A = Trace → A × Trace

infixl 5 ◌>>=◌ ◌>>◌
abbrev pub ◌>>=◌ : {A B : Type 0} → Io A → (A → Io B) → Io B
◌>>=◌ m f h = let (a, h') = m h in f a h'

abbrev pub ◌>>◌ : {B : Type 0} → Io (Unit {0}) → Io B → Io B
◌>>◌ m k h = k (m h).1

abbrev pub pure : {A : Type 0} → A → Io A
pure a h = (a, h)

-- mgpu_read
abbrev pub read : Hw → ℕ → Io ℕ
read hw offset h = (hw h offset, rd offset ∷ h)

abbrev pub emit : Event → Io (Unit {0})
emit e h = (tt, e ∷ h)

-- mgpu_write
abbrev pub write : ℕ → ℕ → Io (Unit {0})
write offset value = emit (wr offset value)

-- The negated error numbers that the driver returns.
pub data Errno : Type 0 where
  eperm enoent eio enomem efault ebusy eexist enodev einval enospc : Errno
  etimedout einprogress ecanceled erestartsys : Errno

-- An `int` that is 0 or a negated error number.
pub data Status : Type 0 where
  ok : Status
  err : Errno → Status

abbrev pub unit_done : Io (Unit {0})
unit_done h = (tt, h)
