-- ===== src/Pm/Tests.antt =====
-- A device with the core and the memory clock.
use package.amdhardware_kernel.Common.{
  ℕ, ◌≡◌, refl, Bool, true, false, none, [], ◌∷◌, ◌==◌, if◌then◌else◌, replicate,
}
use package.amdhardware_kernel.Bus.{
  wr, Trace, Hw, Clock, core_clk, mem_clk, axi_clk, clock_on, clock_off, clock_rate, eio, ebusy,
  etimedout, einval, ok, err,
}
use package.amdhardware_kernel.Bus.Regs.{reg_control, reg_status, reg_shader_pc, reg_irq_enable}
use package.amdhardware_kernel.Core.{core_wait_idle, core_test_alive}
use package.amdhardware_kernel.Ring.{Ring}
use package.amdhardware_kernel.Pm.{
  PmState, power_d0, power_d2, power_d3, Clk, new_pm, pm_save_registers, pm_restore_registers,
  started, clock_enable, clock_disable, enable_mem, enable_core, pm_enable_clocks,
  pm_disable_clocks, enter_state, pm_set_power_state, runtime_idle, pm_runtime_suspend,
  runtime_powered, pm_runtime_resume, suspend_powered, resume_started, resume_powered, pm_resume,
  pm_init, pm_fini, pm_get_state,
}
use package.amdhardware_kernel.Pm.Clocks.{Balanced}
use package.amdhardware_kernel.Pm.Cycles.{pm_set_power_state-Balanced}
use package.amdhardware_kernel.Pm.Rate.{Rates}

abbrev two_clocks : Clock → Bool
two_clocks core_clk = true
two_clocks mem_clk = true
two_clocks axi_clk = false

abbrev rate_of : Trace → ℕ
rate_of [] = 800
rate_of (clock_rate r ∷ h) = r
rate_of (e ∷ h) = rate_of h

abbrev clk : Clk
clk = record { prepare_enable = λ c h. ok; set_rate = λ r h. ok; get_rate = rate_of }

-- The memory clock cannot be enabled.
abbrev no_mem : Clk
no_mem = record {
  prepare_enable = λ c h. elim c [ mem_clk ↦ err eio | _ ↦ ok ];
  set_rate = λ r h. err einval;
  get_rate = λ h. 0;
}

abbrev up : PmState
up = record (new_pm two_clocks) { enabled = true }

undone :
    pm_enable_clocks no_mem (new_pm two_clocks) []
    ≡ ((err eio, new_pm two_clocks), clock_off core_clk ∷ clock_on core_clk ∷ [])
unfolding pm_enable_clocks enable_core enable_mem clock_enable clock_disable started
undone = refl

off-Balanced : Balanced (record (new_pm two_clocks) { power_state = power_d3 }) []
off-Balanced core_clk = refl
off-Balanced mem_clk = refl
off-Balanced axi_clk = refl

pm_set_power_state-Balanced_example :
    let out =
      pm_set_power_state no_mem power_d0
        (record (new_pm two_clocks) { power_state = power_d3 })
        [] in
    Balanced out.0.1 out.1
pm_set_power_state-Balanced_example =
    pm_set_power_state-Balanced no_mem power_d0
      (record (new_pm two_clocks) { power_state = power_d3 }) [] off-Balanced

clk-Rates : Rates clk
clk-Rates = record { set_ok = λ r h. refl; get_set = λ r h. refl; get_wr = λ r v h. refl }

abbrev busy : Hw
busy h r = if r == reg_status then 2 else 7

abbrev ring : Ring
ring = record {
  vaddr = replicate 8 0;
  dma_addr = 0x1000;
  size = 32;
  head = 0;
  tail = 1;
  queue_id = 0;
  submitted_cmds = 1;
  completed_cmds = 0;
  enabled = true;
  last_head = 0;
  last_activity = 0;
}

no_rounds : (h : Trace) → (core_wait_idle busy 0 h).0 ≡ err etimedout
unfolding core_wait_idle
no_rounds h = refl

saved : (pm_save_registers busy up []).0.saved_regs.shader_pc ≡ 7
unfolding pm_save_registers
saved = refl

standby :
    pm_set_power_state clk power_d2 up []
    ≡ ((ok, record up { power_state = power_d2 }), wr reg_control 0 ∷ [])
unfolding pm_set_power_state enter_state
standby = refl

off : pm_set_power_state clk power_d3 up [] ≡ (
  (ok, record up { power_state = power_d3; enabled = false }),
  clock_off core_clk ∷ clock_off mem_clk ∷ wr reg_control 0 ∷ [],
)
unfolding pm_set_power_state enter_state pm_disable_clocks clock_disable
off = refl

not_idle : (pm_runtime_suspend clk busy 0 up []).0 ≡ (err ebusy, up)
unfolding pm_runtime_suspend runtime_idle core_wait_idle
not_idle = refl

not_suspended : pm_resume clk busy false false ok 99 up none [] ≡ ((ok, up, none), [])
unfolding pm_resume
not_suspended = refl

-- The first write of the restore goes to the base of the ring.
restored :
    (pm_restore_registers up.saved_regs []).1
    ≡ wr reg_control 0
      ∷ wr reg_irq_enable 0
      ∷ wr reg_shader_pc 0
      ∷ wr 0x88 0
      ∷ wr 0x84 0
      ∷ wr 0x80 0
      ∷ wr 0x60 0
      ∷ wr 0x44 0
      ∷ wr 0x40 0
      ∷ []
unfolding pm_restore_registers
restored = refl

-- Clocks that fail at the start are not tried again by a move to D0, the state that the device counts as
-- being in.
without_clocks : (pm_init no_mem true two_clocks []).0.0 ≡ ok
unfolding pm_init pm_enable_clocks enable_core enable_mem clock_enable clock_disable started
without_clocks = refl

not_again : pm_set_power_state clk power_d0 (new_pm two_clocks) [] ≡ ((ok, new_pm two_clocks), [])
unfolding pm_set_power_state
not_again = refl

gone : pm_fini clk none [] ≡ (none, [])
unfolding pm_fini
gone = refl

default_state : pm_get_state none ≡ power_d0
unfolding pm_get_state
default_state = refl

responsive : (pm_runtime_resume clk busy up []).0.0 ≡ err eio
unfolding pm_runtime_resume pm_set_power_state runtime_powered core_test_alive
responsive = refl

resumed : (resume_started clk busy false false 99 up none (err eio) []).0 ≡ (err eio, up, none)
unfolding resume_started resume_powered
resumed = refl

suspended :
    (suspend_powered clk busy false false 99 none ok up []).0
    ≡ (ok, record up { suspended = true; suspend_count = 1; last_suspend = 99 }, none)
unfolding suspend_powered
suspended = refl
