-- ===== src/Reset.antt =====
-- kernel/drivers/gpu/mgpu/mgpu_reset.c: the hardware reset, the work that does it and when it is asked
-- for.
pub mod Hardware
pub mod Work
mod Tests
use package.amdhardware_kernel.Common.{
  Option, none, some, ℕ, ◌+◌, bit_or, Bool, true, false, [], ◌==◌, if◌then◌else◌, u32, all_ones,
  flag,
}
use package.amdhardware_kernel.Bus.{
  reset_wait, rd, sleep, wake, Hw, Io, ◌>>=◌, ◌>>◌, pure, read, emit, write, eio, etimedout, Status,
  ok, err, unit_done,
}
use package.amdhardware_kernel.Bus.Regs.{
  reg_control, reg_status, reg_irq_ack, reg_fence_value, ctrl_reset, status_busy, status_error,
  status_halted,
}
use package.amdhardware_kernel.Schedule.{reset_schedule}
use package.amdhardware_kernel.Core.{Caps, poll_idle, timed_out, core_test_alive, core_wait_idle}
use package.amdhardware_kernel.Core.Init.{core_init, core_dump_state}
use package.amdhardware_kernel.Irq.{irq_enable, irq_disable}
use package.amdhardware_kernel.Ring.{Ring}
use package.amdhardware_kernel.Ring.Power.{cmdq_stop, cmdq_resume}

-- The fields of `struct mgpu_device` that the reset uses. `last_reset_time` is a clock's reading.
pub record ResetState : Type 0 where
  pub in_reset : Bool
  pub reset_count : ℕ
  pub last_reset_time : ℕ

pub reset_init : ℕ → ResetState
reset_init now = record { in_reset = false; reset_count = 0; last_reset_time = now }

abbrev pub stuck : ℕ
stuck = bit_or status_error status_halted

module _ (hw : Hw) where
  -- The part of `mgpu_reset_hw` after the test that the GPU answers.
  pub clear_errors : Io Status
  clear_errors = do
    status ← read hw reg_status
    if flag status stuck then (write reg_status 0 >> emit (rd reg_status)) else unit_done
    pure ok

  pub reset_answer : Io Status
  unfolding clear_errors
  reset_answer = do
    write reg_irq_ack all_ones
    alive ← core_test_alive hw
    elim alive [ ok ↦ clear_errors | err e ↦ pure (err eio) ]

  pub reset_hw : Io Status
  reset_hw = do
    old_control ← read hw reg_control
    write reg_control 0
    emit (sleep 10)
    write reg_control ctrl_reset
    emit (sleep 100)
    write reg_control 0
    timeout ← poll_idle hw (sleep 1) 1000
    if timed_out timeout then pure (err etimedout) else reset_answer

  -- `mgpu_reset_needed`, with its static `last_fence` and the new one.
  pub reset_needed : ℕ → Io (Bool × ℕ)
  reset_needed last_fence = do
    status ← read hw reg_status
    if flag status status_error
        then pure (true, last_fence)
        else if flag status status_halted
        then pure (true, last_fence)
        else if flag status status_busy
        then (do
          current_fence ← read hw reg_fence_value
          pure (if current_fence == last_fence then (true, last_fence) else (false, current_fence)))
        else pure (false, last_fence)

  pub reset_on_error : Bool → Io (Unit {0})
  reset_on_error in_reset = do
    status ← read hw reg_status
    if flag status status_error then reset_schedule in_reset else unit_done

-- `engine` is ignored.
pub reset_engine : Bool → ℕ → Io Status
reset_engine in_reset engine = do reset_schedule in_reset; pure ok

-- `mgpu_reset_wait` with the answer of `wait_event_interruptible_timeout`: `none` for 0, an error, or
-- `ok` for a positive number.
pub reset_wait_answer : Option Status → Status
reset_wait_answer none = err etimedout
reset_wait_answer (some ret) = ret

-- `struct mgpu_reset_stats`
pub record ResetStats : Type 0 where
  pub reset_count : ℕ
  pub in_reset : Bool
  pub last_reset_time : ℕ

pub reset_get_stats : ResetState → ResetStats
reset_get_stats reset = record {
  reset_count = reset.reset_count;
  in_reset = reset.in_reset;
  last_reset_time = reset.last_reset_time;
}

-- What the work changes of the device.
pub record ResetWork : Type 0 where
  pub reset : ResetState
  pub cmd_ring : Option Ring
  pub caps : Caps
  pub irq_status : ℕ

-- What `mgpu_core_init` set of the device: its features, and no saved interrupts, unless it gave up
-- before.
abbrev pub after_init : Option Caps → ResetWork → ResetWork
after_init init w = record w {
  caps = elim init [ none ↦ w.caps | some c ↦ c ];
  irq_status = elim init [ none ↦ w.irq_status | some c ↦ 0 ];
}

-- What the work gets from the kernel and the device's flags: the rounds of its two waits, the answer
-- of `request_irq`, and the time.
pub record WorkEnv : Type 0 where
  pub stop_polls : ℕ
  pub idle_polls : ℕ
  pub debug : Bool
  pub profiling : Bool
  pub registered : Status
  pub now : ℕ

module _ (hw : Hw) (env : WorkEnv) where
  -- The label `out`.
  pub work_out : ResetWork → Io ResetWork
  work_out w = do
    emit (wake reset_wait)
    pure (record w { reset = record w.reset { in_reset = false } })

  -- After `mgpu_core_init` returned.
  pub work_restored : ResetWork → Io ResetWork
  unfolding work_out
  work_restored w = do
    ring ← cmdq_resume w.cmd_ring
    irq_enable env.debug env.profiling
    work_out (record w {
      reset = record w.reset {
        reset_count = u32 (w.reset.reset_count + 1);
        last_reset_time = env.now;
      };
      cmd_ring = ring;
    })

  -- After `mgpu_reset_hw` returned.
  pub work_reset : ResetWork → Io ResetWork
  unfolding work_restored
  work_reset w = do
    init ← core_init hw env.debug env.profiling env.registered
    elim init.0 [
      | ok ↦ work_restored (after_init init.1 w)
      | err e ↦ work_out (after_init init.1 w)
    ]

  -- Up to `mgpu_reset_hw`: the stopped ring.
  pub work_stop : Option Ring → Io (Option Ring)
  work_stop cmd_ring = do
    ring ← cmdq_stop hw env.stop_polls cmd_ring
    idle ← core_wait_idle hw env.idle_polls
    core_dump_state hw
    irq_disable
    pure ring

  pub reset_work_handler : ResetWork → Io ResetWork
  unfolding work_stop
  reset_work_handler w = do
    ring ← work_stop w.cmd_ring
    status ← reset_hw hw
    let stopped : ResetWork = record w {
      reset = record w.reset { in_reset = true };
      cmd_ring = ring;
    }
    elim status [ ok ↦ work_reset stopped | err e ↦ work_out stopped ]
