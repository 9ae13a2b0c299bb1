-- ===== src/Pm/Suspend.antt =====
-- `mgpu_pm_suspend` on a device that does not become idle.
use package.amdhardware_kernel.Common.{
  ℕ, ◌≡◌, refl, ap, ◌∙◌, Bool, false, Option, some, ◌∷◌, if_false,
}
use package.amdhardware_kernel.Bus.{Trace, Hw, Io, runtime_on, runtime_off, Errno, err}
use package.amdhardware_kernel.Core.{core_wait_idle}
use package.amdhardware_kernel.Ring.{Ring}
use package.amdhardware_kernel.Ring.Power.{cmdq_suspend}
use package.amdhardware_kernel.Pm.{PmState, Clk, PmOutcome, suspend_idle, pm_suspend}

module _ (clk : Clk) (hw : Hw) (debug profiling : Bool) (drain_polls idle_polls ktime : ℕ) where
  -- The command ring and the events after `mgpu_cmdq_suspend`.
  abbrev pub stopped : Ring → Trace → Option Ring × Trace
  stopped ring h = cmdq_suspend hw drain_polls (some ring) (runtime_off ∷ h)

  begins :
      (pm : PmState) (ring : Ring) (h : Trace)
      → pm.suspended ≡ false
      → pm_suspend clk hw debug profiling drain_polls idle_polls ktime pm (some ring) h ≡ (
          let (ring', h₁) = stopped ring h in
          let (ret, h₂) = core_wait_idle hw idle_polls h₁ in
          suspend_idle clk hw debug profiling ktime ring' pm ret h₂)
  unfolding pm_suspend
  begins pm ring h e = ap (λ (m : Io PmOutcome). m h) (if_false _ _ e)

  gives_up :
      (pm : PmState) (ring : Option Ring) (x : Errno) (h : Trace)
      → suspend_idle clk hw debug profiling ktime ring pm (err x) h
        ≡ ((err x, pm, ring), runtime_on ∷ h)
  unfolding suspend_idle
  gives_up pm ring x h = refl

  stopped_ring :
      (ring : Ring) (h : Trace) → (r : Ring) × (((stopped ring h).0 ≡ some r) × (r.enabled ≡ false))
  unfolding cmdq_suspend
  stopped_ring ring h = (_, (refl, refl))

  -- When the device does not become idle, mgpu_pm_suspend returns the error and the state unchanged, but
  -- leaves the command ring stopped: its `enabled` is false.
  pub pm_suspend_fails :
      (pm : PmState) (ring : Ring) (h : Trace) (x : Errno)
      → pm.suspended ≡ false
      → (core_wait_idle hw idle_polls (stopped ring h).1).0 ≡ err x
      → (r : Ring) × (((pm_suspend clk hw debug profiling drain_polls idle_polls ktime pm
              (some ring)
              h).0
            ≡ (err x, pm, some r))
          × (r.enabled ≡ false))
  pm_suspend_fails pm ring h x up busy =
      let (r, (e, off)) = stopped_ring ring h in
      (
        r,
        (
          ap (λ (o : PmOutcome × Trace). o.0) (begins pm ring h up)
              ∙ ap
                  (λ ret.
                    (suspend_idle clk hw debug profiling ktime (stopped ring h).0 pm ret
                      (core_wait_idle hw idle_polls (stopped ring h).1).1).0)
                  busy
              ∙ ap (λ (o : PmOutcome × Trace). o.0) (gives_up pm (stopped ring h).0 x _)
              ∙ ap (λ (o : Option Ring). (err x, pm, o)) e,
          off,
        ),
      )
