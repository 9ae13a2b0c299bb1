-- ===== src/Pm.antt =====
-- kernel/drivers/gpu/mgpu/mgpu_pm.c. The clocks and the runtime power management of the kernel are
-- arguments: their answers are functions of what was called before.
pub mod Clocks
pub mod Rate
pub mod Cycles
pub mod Suspend
mod Tests
use package.amdhardware_kernel.Common.{
  ℕ, ◌+◌, ◌/◌, Bool, true, false, not, Option, none, some, List, [], ◌∷◌, if◌then◌else◌, u64,
}
use package.amdhardware_kernel.Bus.{
  Trace, Hw, Io, ◌>>=◌, ◌>>◌, pure, read, write, emit, unit_done, Clock, core_clk, mem_clk, axi_clk,
  clock_on, clock_off, clock_rate, runtime_on, runtime_off, ebusy, enomem, Status, ok, err,
}
use package.amdhardware_kernel.Bus.Regs.{
  reg_control, reg_irq_enable, reg_cmd_base, reg_cmd_size, reg_fence_addr, reg_vertex_base,
  reg_vertex_count, reg_vertex_stride, reg_shader_pc, ctrl_enable,
}
use package.amdhardware_kernel.Core.{core_wait_idle, core_test_alive, Caps}
use package.amdhardware_kernel.Core.Init.{core_init}
use package.amdhardware_kernel.Irq.{irq_suspend, irq_resume}
use package.amdhardware_kernel.Ring.{Ring}
use package.amdhardware_kernel.Ring.Power.{cmdq_suspend, cmdq_resume}

pub data PowerState : Type 0 where
  power_d0 power_d1 power_d2 power_d3 : PowerState

abbrev pub same_state : PowerState → PowerState → Bool
same_state power_d0 power_d0 = true
same_state power_d1 power_d1 = true
same_state power_d2 power_d2 = true
same_state power_d3 power_d3 = true
same_state _ _ = false

-- `saved_regs[0]` to `saved_regs[8]`
pub record SavedRegs : Type 0 where
  pub control : ℕ
  pub irq_enable : ℕ
  pub cmd_base : ℕ
  pub cmd_size : ℕ
  pub fence_addr : ℕ
  pub vertex_base : ℕ
  pub vertex_count : ℕ
  pub vertex_stride : ℕ
  pub shader_pc : ℕ

-- `struct mgpu_pm_state`: `has` says which clocks are not NULL. The regulators and the fields that
-- nothing uses are left out.
pub record PmState : Type 0 where
  pub power_state : PowerState
  pub has : Clock → Bool
  pub enabled : Bool
  pub runtime_enabled : Bool
  pub saved_regs : SavedRegs
  pub suspended : Bool
  pub suspend_count : ℕ
  pub resume_count : ℕ
  pub idle_count : ℕ
  pub last_suspend : ℕ
  pub last_resume : ℕ

-- What the calls of the clock framework answer.
pub record Clk : Type 0 where
  pub prepare_enable : Clock → Trace → Status
  pub set_rate : ℕ → Trace → Status
  pub get_rate : Trace → ℕ

abbrev pub no_regs : SavedRegs
no_regs = record {
  control = 0;
  irq_enable = 0;
  cmd_base = 0;
  cmd_size = 0;
  fence_addr = 0;
  vertex_base = 0;
  vertex_count = 0;
  vertex_stride = 0;
  shader_pc = 0;
}

-- `int` with the state and the command ring
abbrev pub PmOutcome : Type 0
PmOutcome = Status × PmState × Option Ring

pub pm_save_registers : Hw → PmState → Io PmState
pm_save_registers hw pm = do
  control ← read hw reg_control
  irq_enable ← read hw reg_irq_enable
  cmd_base ← read hw reg_cmd_base
  cmd_size ← read hw reg_cmd_size
  fence_addr ← read hw reg_fence_addr
  vertex_base ← read hw reg_vertex_base
  vertex_count ← read hw reg_vertex_count
  vertex_stride ← read hw reg_vertex_stride
  shader_pc ← read hw reg_shader_pc
  pure (record pm {
    saved_regs = record {
      control = control;
      irq_enable = irq_enable;
      cmd_base = cmd_base;
      cmd_size = cmd_size;
      fence_addr = fence_addr;
      vertex_base = vertex_base;
      vertex_count = vertex_count;
      vertex_stride = vertex_stride;
      shader_pc = shader_pc;
    };
  })

pub pm_restore_registers : SavedRegs → Io (Unit {0})
pm_restore_registers saved = do
  write reg_cmd_base saved.cmd_base
  write reg_cmd_size saved.cmd_size
  write reg_fence_addr saved.fence_addr
  write reg_vertex_base saved.vertex_base
  write reg_vertex_count saved.vertex_count
  write reg_vertex_stride saved.vertex_stride
  write reg_shader_pc saved.shader_pc
  write reg_irq_enable saved.irq_enable
  write reg_control saved.control

-- The state of `mgpu_pm_init` before the clocks
abbrev pub new_pm : (Clock → Bool) → PmState
new_pm has = record {
  power_state = power_d0;
  has = has;
  enabled = false;
  runtime_enabled = false;
  saved_regs = no_regs;
  suspended = false;
  suspend_count = 0;
  resume_count = 0;
  idle_count = 0;
  last_suspend = 0;
  last_resume = 0;
}

module _ (clk : Clk) where
  started : Clock → Status → Io Status
  started c ok = do emit (clock_on c); pure ok
  started c (err e) = pure (err e)

  -- A clock that is there is enabled.
  pub clock_enable : PmState → Clock → Io Status
  unfolding started
  clock_enable pm c h = if pm.has c then started c (clk.prepare_enable c h) h else (ok, h)

  pub clock_disable : PmState → Clock → Io (Unit {0})
  clock_disable pm c = if pm.has c then emit (clock_off c) else unit_done

  -- From the answer for the AXI clock on, with the label `err_axi_clk`.
  enable_axi : PmState → Status → Io (Status × PmState)
  enable_axi pm ok = pure (ok, record pm { enabled = true })
  enable_axi pm (err e) = do clock_disable pm mem_clk; clock_disable pm core_clk; pure (err e, pm)

  -- From the answer for the memory clock on, with the label `err_mem_clk`.
  enable_mem : PmState → Status → Io (Status × PmState)
  unfolding enable_axi clock_enable
  enable_mem pm ok = do ret ← clock_enable pm axi_clk; enable_axi pm ret
  enable_mem pm (err e) = do clock_disable pm core_clk; pure (err e, pm)

  enable_core : PmState → Status → Io (Status × PmState)
  unfolding enable_mem clock_enable
  enable_core pm ok = do ret ← clock_enable pm mem_clk; enable_mem pm ret
  enable_core pm (err e) = pure (err e, pm)

  pub pm_enable_clocks : PmState → Io (Status × PmState)
  unfolding enable_core clock_enable
  pm_enable_clocks pm =
      if pm.enabled then pure (ok, pm) else do ret ← clock_enable pm core_clk; enable_core pm ret

  pub pm_disable_clocks : PmState → Io PmState
  pm_disable_clocks pm = if not pm.enabled then pure pm else do
    clock_disable pm axi_clk
    clock_disable pm mem_clk
    clock_disable pm core_clk
    pure (record pm { enabled = false })

  rate_set : ℕ → Status → Io Status
  rate_set rate ok = do emit (clock_rate rate); pure ok
  rate_set rate (err e) = pure (err e)

  -- The case MGPU_POWER_D1
  pub halve_rate : PmState → Io Status
  unfolding rate_set
  halve_rate pm h =
      let rate = clk.get_rate h / 2 in
      if pm.has core_clk then rate_set rate (clk.set_rate rate h) h else (ok, h)

  -- The case MGPU_POWER_D0 with the answer of `mgpu_pm_enable_clocks`
  power_up : Status → PmState → Io (Status × PmState)
  power_up ok pm = do write reg_control ctrl_enable; pure (ok, record pm { power_state = power_d0 })
  power_up (err e) pm = pure (err e, pm)

  enter_state : PowerState → PmState → Io (Status × PmState)
  unfolding power_up
  enter_state power_d0 pm = do (ret, pm') ← pm_enable_clocks pm; power_up ret pm'
  enter_state power_d1 pm = do ret ← halve_rate pm; pure (ret, record pm { power_state = power_d1 })
  enter_state power_d2 pm = do write reg_control 0; pure (ok, record pm { power_state = power_d2 })
  enter_state power_d3 pm = do
    write reg_control 0
    pm' ← pm_disable_clocks pm
    pure (ok, record pm' { power_state = power_d3 })

  -- `mgpu_pm_set_power_state`, and `mgpu_pm_force_state`
  pub pm_set_power_state : PowerState → PmState → Io (Status × PmState)
  unfolding enter_state
  pm_set_power_state state pm =
      if same_state pm.power_state state then pure (ok, pm) else enter_state state pm

  module _ (hw : Hw) where
    runtime_idle : PmState → Status → Io (Status × PmState)
    runtime_idle pm (err e) = pure (err ebusy, pm)
    runtime_idle pm ok = do
      saved ← pm_save_registers hw pm
      (ret, pm') ← pm_set_power_state power_d2 saved
      pure (
        ret,
        elim ret [ ok ↦ record pm' { idle_count = u64 (pm'.idle_count + 1) } | err e ↦ pm' ],
      )

    -- `mgpu_pm_runtime_suspend`; `polls` is that of `mgpu_core_wait_idle`.
    pub pm_runtime_suspend : ℕ → PmState → Io (Status × PmState)
    unfolding runtime_idle
    pm_runtime_suspend polls pm = do ret ← core_wait_idle hw polls; runtime_idle pm ret

    runtime_powered : Status → PmState → Io (Status × PmState)
    runtime_powered (err e) pm = pure (err e, pm)
    runtime_powered ok pm = do
      pm_restore_registers pm.saved_regs
      ret ← core_test_alive hw
      pure (ret, pm)

    pub pm_runtime_resume : PmState → Io (Status × PmState)
    unfolding runtime_powered
    pm_runtime_resume pm = do (ret, pm') ← pm_set_power_state power_d0 pm; runtime_powered ret pm'

    suspend_powered : Bool → Bool → ℕ → Option Ring → Status → PmState → Io PmOutcome
    suspend_powered debug profiling ktime ring ok pm = pure (
      ok,
      record pm {
        suspended = true;
        suspend_count = u64 (pm.suspend_count + 1);
        last_suspend = ktime;
      },
      ring,
    )
    suspend_powered debug profiling ktime ring (err e) pm = do
      (ret, irq_status) ← irq_resume debug profiling
      emit runtime_on
      pure (err e, pm, ring)

    suspend_idle : Bool → Bool → ℕ → Option Ring → PmState → Status → Io PmOutcome
    unfolding suspend_powered
    suspend_idle debug profiling ktime ring pm (err e) = do emit runtime_on; pure (err e, pm, ring)
    suspend_idle debug profiling ktime ring pm ok = do
      saved ← pm_save_registers hw pm
      ret ← irq_suspend
      (ret', pm') ← pm_set_power_state power_d3 saved
      suspend_powered debug profiling ktime ring ret' pm'

    -- `mgpu_pm_suspend` with the rounds of the two waits and the answer of `ktime_get`
    pub pm_suspend : Bool → Bool → ℕ → ℕ → ℕ → PmState → Option Ring → Io PmOutcome
    unfolding suspend_idle
    pm_suspend debug profiling drain_polls idle_polls ktime pm ring =
        if pm.suspended then pure (ok, pm, ring) else do
          emit runtime_off
          ring' ← cmdq_suspend hw drain_polls ring
          ret ← core_wait_idle hw idle_polls
          suspend_idle debug profiling ktime ring' pm ret

    resume_started : Bool → Bool → ℕ → PmState → Option Ring → Status → Io PmOutcome
    resume_started debug profiling ktime pm ring (err e) = pure (err e, pm, ring)
    resume_started debug profiling ktime pm ring ok = do
      pm_restore_registers pm.saved_regs
      irq ← irq_resume debug profiling
      ring' ← cmdq_resume ring
      emit runtime_on
      pure (
        ok,
        record pm {
          suspended = false;
          resume_count = u64 (pm.resume_count + 1);
          last_resume = ktime;
        },
        ring',
      )

    resume_powered : Bool → Bool → Status → ℕ → Option Ring → Status → PmState → Io PmOutcome
    unfolding resume_started
    resume_powered debug profiling irq ktime ring (err e) pm = pure (err e, pm, ring)
    resume_powered debug profiling irq ktime ring ok pm = do
      (ret, caps) ← core_init hw debug profiling irq
      resume_started debug profiling ktime pm ring ret

    -- `mgpu_pm_resume`; `irq` is the answer of `request_irq` in `mgpu_core_init`. `mgpu_irq_resume` and
    -- `mgpu_cmdq_resume` return 0.
    pub pm_resume : Bool → Bool → Status → ℕ → PmState → Option Ring → Io PmOutcome
    unfolding resume_powered
    pm_resume debug profiling irq ktime pm ring =
        if not pm.suspended then pure (ok, pm, ring) else do
          (ret, pm') ← pm_set_power_state power_d0 pm
          resume_powered debug profiling irq ktime ring ret pm'

  -- `mgpu_pm_init` with the answers of `kzalloc` and `devm_clk_get`
  pub pm_init : Bool → (Clock → Bool) → Io (Status × Option PmState)
  pm_init false has = pure (err enomem, none)
  pm_init true has = do
    (ret, pm) ← pm_enable_clocks (new_pm has)
    emit runtime_on
    pure (ok, some (record pm { runtime_enabled = true }))

  pub pm_fini : Option PmState → Io (Option PmState)
  pm_fini none = pure none
  pm_fini (some pm) = do
    if pm.runtime_enabled then emit runtime_off else unit_done
    (ret, pm') ← pm_set_power_state power_d3 pm
    pm₂ ← pm_disable_clocks pm'
    pure none

pub pm_get_state : Option PmState → PowerState
pm_get_state none = power_d0
pm_get_state (some pm) = pm.power_state
