-- ===== src/Pm/Cycles.antt =====
-- `mgpu_pm_set_power_state` and the clocks.
use package.amdhardware_kernel.Common.{
  ℕ, ◌/◌, ◌≡◌, refl, ap, ◌∙◌, inl, inr, true, false, ◌∷◌, if_true, if_false, Bool-cases,
}
use package.amdhardware_kernel.Bus.{wr, Trace, Io, Clock, core_clk, Status, ok, err}
use package.amdhardware_kernel.Bus.Regs.{reg_control}
use package.amdhardware_kernel.Pm.{
  PmState, PowerState, power_d0, power_d1, power_d2, power_d3, same_state, Clk, pm_enable_clocks,
  rate_set, halve_rate, power_up, enter_state, pm_set_power_state,
}
use package.amdhardware_kernel.Pm.Clocks.{
  uses, Balanced, pm_enable_clocks-Balanced, pm_disable_clocks-Balanced,
}

module _ (clk : Clk) where
  uses-rate_set :
      (rate : ℕ) (ret : Status) (c : Clock) (h : Trace)
      → uses c (rate_set clk rate ret h).1 ≡ uses c h
  unfolding rate_set
  uses-rate_set rate ok c h = refl
  uses-rate_set rate (err e) c h = refl

  uses-halve_rate :
      (pm : PmState) (c : Clock) (h : Trace) → uses c (halve_rate clk pm h).1 ≡ uses c h
  unfolding halve_rate
  uses-halve_rate pm c h = elim (Bool-cases (pm.has core_clk)) [
    | inl e ↦
        ap (λ (o : Status × Trace). uses c o.1) (if_true _ _ e)
        ∙ uses-rate_set _ (clk.set_rate (clk.get_rate h / 2) h) c h
    | inr e ↦ ap (λ (o : Status × Trace). uses c o.1) (if_false _ _ e)
  ]

  power_up-Balanced :
      (ret : Status) (pm : PmState) (h : Trace)
      → Balanced pm h
      → Balanced (power_up clk ret pm h).0.1 (power_up clk ret pm h).1
  unfolding power_up
  power_up-Balanced ok pm h u = u
  power_up-Balanced (err e) pm h u = u

  enter_state-Balanced :
      (state : PowerState) (pm : PmState) (h : Trace)
      → Balanced pm h
      → Balanced (enter_state clk state pm h).0.1 (enter_state clk state pm h).1
  unfolding enter_state
  enter_state-Balanced power_d0 pm h u =
      let o = pm_enable_clocks clk pm h in
      power_up-Balanced o.0.0 o.0.1 o.1 (pm_enable_clocks-Balanced clk pm h u)
  enter_state-Balanced power_d1 pm h u = λ c. uses-halve_rate pm c h ∙ u c
  enter_state-Balanced power_d2 pm h u = u
  enter_state-Balanced power_d3 pm h u = pm_disable_clocks-Balanced clk pm (wr reg_control 0 ∷ h) u

  -- Between any two power states, on every answer of the clock framework, mgpu_pm_set_power_state keeps
  -- clocks that are balanced so: each clock that is there is enabled exactly once when `enabled` says so, and
  -- not at all when not, so that a failure on the way undoes the enables before it.
  pub pm_set_power_state-Balanced :
      (state : PowerState) (pm : PmState) (h : Trace)
      → Balanced pm h
      → Balanced (pm_set_power_state clk state pm h).0.1 (pm_set_power_state clk state pm h).1
  unfolding pm_set_power_state
  pm_set_power_state-Balanced state pm h u = elim (Bool-cases (same_state pm.power_state state)) [
    | inl e ↦ rw (stays e) u
    | inr e ↦ rw (moves e) (enter_state-Balanced state pm h u)
  ]
    where
      stays :
          same_state pm.power_state state ≡ true → pm_set_power_state clk state pm h ≡ ((ok, pm), h)
      stays e = ap (λ (m : Io (Status × PmState)). m h) (if_true _ _ e)

      moves :
          same_state pm.power_state state ≡ false
          → pm_set_power_state clk state pm h ≡ enter_state clk state pm h
      moves e = ap (λ (m : Io (Status × PmState)). m h) (if_false _ _ e)
