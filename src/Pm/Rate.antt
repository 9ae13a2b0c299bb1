-- ===== src/Pm/Rate.antt =====
-- The rate of the core clock.
use package.amdhardware_kernel.Common.{
  ℕ, zero, suc, ◌/◌, ◌≡◌, refl, ap, ◌∙◌, true, if_true, if_false, ◌∷◌,
}
use package.amdhardware_kernel.Bus.{wr, Trace, Io, core_clk, clock_rate, Status, ok}
use package.amdhardware_kernel.Bus.Regs.{reg_control, ctrl_enable}
use package.amdhardware_kernel.Pm.{
  same_state, PmState, power_d0, power_d1, Clk, enter_state, power_up, pm_enable_clocks, rate_set,
  halve_rate, pm_set_power_state,
}

-- `clk_set_rate` succeeds, `clk_get_rate` gives the rate set last, and a register write leaves it.
pub record Rates (clk : Clk) : Type 0 where
  pub set_ok : (rate : ℕ) (h : Trace) → clk.set_rate rate h ≡ ok
  pub get_set : (rate : ℕ) (h : Trace) → clk.get_rate (clock_rate rate ∷ h) ≡ rate
  pub get_wr : (r v : ℕ) (h : Trace) → clk.get_rate (wr r v ∷ h) ≡ clk.get_rate h

-- A device that is up, with a core clock.
pub record Active (pm : PmState) : Type 0 where
  pub in_d0 : pm.power_state ≡ power_d0
  pub has_core : pm.has core_clk ≡ true
  pub clocked : pm.enabled ≡ true

abbrev pub halved : ℕ → ℕ → ℕ
halved zero rate = rate
halved (suc n) rate = halved n rate / 2

module _ (clk : Clk) where
  -- The device goes idle and comes back, `n` times.
  abbrev pub idle_cycles : ℕ → PmState → Io PmState
  idle_cycles zero pm h = (pm, h)
  idle_cycles (suc n) pm h =
      let (pm', h') = idle_cycles n pm h in
      let ((ret, idle), h₁) = pm_set_power_state clk power_d1 pm' h' in
      let ((ret', up), h₂) = pm_set_power_state clk power_d0 idle h₁ in (up, h₂)

  module _ (rates : Rates clk) where
    halves :
        (pm : PmState) (h : Trace)
        → pm.has core_clk ≡ true
        → halve_rate clk pm h ≡ (ok, clock_rate (clk.get_rate h / 2) ∷ h)
    unfolding halve_rate rate_set
    halves pm h has =
        if_true _ _ has
        ∙ ap (λ ret. rate_set clk (clk.get_rate h / 2) ret h) (rates.set_ok (clk.get_rate h / 2) h)

    to_idle :
        (pm : PmState) (h : Trace)
        → Active pm
        → pm_set_power_state clk power_d1 pm h
          ≡ ((ok, record pm { power_state = power_d1 }), clock_rate (clk.get_rate h / 2) ∷ h)
    unfolding pm_set_power_state enter_state
    to_idle pm h a =
        ap (λ (m : Io (Status × PmState)). m h)
          (if_false {b = same_state pm.power_state power_d1} _ _
            (ap (λ p. same_state p power_d1) a.in_d0))
        ∙ ap (λ (o : Status × Trace). ((o.0, record pm { power_state = power_d1 }), o.1))
            (halves pm h a.has_core)

    clocked_already :
        (pm : PmState) (h : Trace) → pm.enabled ≡ true → pm_enable_clocks clk pm h ≡ ((ok, pm), h)
    unfolding pm_enable_clocks
    clocked_already pm h e = ap (λ (m : Io (Status × PmState)). m h) (if_true _ _ e)

    to_active :
        (pm : PmState) (h : Trace)
        → pm.power_state ≡ power_d1
        → pm.enabled ≡ true
        → pm_set_power_state clk power_d0 pm h
          ≡ ((ok, record pm { power_state = power_d0 }), wr reg_control ctrl_enable ∷ h)
    unfolding pm_set_power_state enter_state power_up
    to_active pm h idle e =
        ap (λ (m : Io (Status × PmState)). m h)
          (if_false {b = same_state pm.power_state power_d0} _ _
            (ap (λ p. same_state p power_d0) idle))
        ∙ ap (λ (o : (Status × PmState) × Trace). power_up clk o.0.0 o.0.1 o.1)
            (clocked_already pm h e)

    -- The device and its events after one cycle.
    abbrev cycled : PmState → PmState
    cycled pm = record pm { power_state = power_d0 }

    one_cycle :
        (n : ℕ) (pm : PmState) (h : Trace)
        → Active (idle_cycles n pm h).0
        → idle_cycles (suc n) pm h ≡ (
          cycled (idle_cycles n pm h).0,
          wr reg_control ctrl_enable
              ∷ clock_rate (clk.get_rate (idle_cycles n pm h).1 / 2)
              ∷ (idle_cycles n pm h).1,
        )
    one_cycle n pm h a =
        let pm' = (idle_cycles n pm h).0 in
        let h' = (idle_cycles n pm h).1 in
        ap
          (λ (o : (Status × PmState) × Trace).
            let out = pm_set_power_state clk power_d0 o.0.1 o.1 in (out.0.1, out.1))
          (to_idle pm' h' a)
        ∙ ap (λ (o : (Status × PmState) × Trace). (o.0.1, o.1))
            (to_active (record pm' { power_state = power_d1 })
              (clock_rate (clk.get_rate h' / 2) ∷ h') refl a.clocked)

    -- Where the clock framework sets the rates that it is asked for, each move of an active device to the
    -- idle state D1 and back to D0 halves the rate of its core clock: after `n` of them it runs at the
    -- rate halved `n` times, though it is fully up again.
    pub idle_cycles-halved :
        (n : ℕ) (pm : PmState) (h : Trace)
        → Active pm
        → Active (idle_cycles n pm h).0
          × (clk.get_rate (idle_cycles n pm h).1 ≡ halved n (clk.get_rate h))
    idle_cycles-halved zero pm h a = (a, refl)
    idle_cycles-halved (suc n) pm h a =
        let (active, rate) = idle_cycles-halved n pm h a in
        let step = one_cycle n pm h active in
        (
          rw step (record { in_d0 = refl; has_core = active.has_core; clocked = active.clocked }),
          ap (λ (o : PmState × Trace). clk.get_rate o.1) step
              ∙ rates.get_wr _ _ _
              ∙ rates.get_set _ _
              ∙ ap (λ r. r / 2) rate,
        )
