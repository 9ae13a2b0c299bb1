-- ===== src/Pm/Clocks.antt =====
-- The enables of each clock and what balances them.
use package.amdhardware_kernel.Common.{
  ℕ, suc, ◌-◌, ◌≡◌, refl, ap, sym, ◌∙◌, inl, inr, Bool, true, false, not, ◌&&◌, [], ◌∷◌, arith,
  if◌then◌else◌, if_true, if_false, Bool-cases,
}
use package.amdhardware_kernel.Bus.{
  Trace, Io, Clock, core_clk, mem_clk, axi_clk, clock_on, clock_off, Status, ok, err,
}
use package.amdhardware_kernel.Pm.{
  PmState, Clk, started, clock_enable, clock_disable, enable_axi, enable_mem, enable_core,
  pm_enable_clocks, pm_disable_clocks,
}

abbrev pub same_clock : Clock → Clock → Bool
same_clock core_clk core_clk = true
same_clock mem_clk mem_clk = true
same_clock axi_clk axi_clk = true
same_clock _ _ = false

-- The enables of a clock that no disable has taken back.
abbrev pub uses : Clock → Trace → ℕ
uses c [] = 0
uses c (clock_on d ∷ h) = if same_clock c d then suc (uses c h) else uses c h
uses c (clock_off d ∷ h) = if same_clock c d then uses c h - 1 else uses c h
uses c (e ∷ h) = uses c h

-- The clocks that are there are enabled once where `on` says so, the others not at all.
abbrev pub UsesOf : PmState → (Clock → Bool) → Trace → Type 0
UsesOf pm on h = (c : Clock) → uses c h ≡ (if pm.has c && on c then 1 else 0)

abbrev set_on : Clock → Bool → (Clock → Bool) → Clock → Bool
set_on d v on c = if same_clock c d then v else on c

-- `enabled` tells of all clocks whether they are enabled.
abbrev pub Balanced : PmState → Trace → Type 0
Balanced pm h = UsesOf pm (λ c. pm.enabled) h

same_clock_eq : (c d : Clock) → same_clock c d ≡ true → c ≡ d
same_clock_eq core_clk core_clk e = refl
same_clock_eq mem_clk mem_clk e = refl
same_clock_eq axi_clk axi_clk e = refl
same_clock_eq core_clk mem_clk e = cc
same_clock_eq core_clk axi_clk e = cc
same_clock_eq mem_clk core_clk e = cc
same_clock_eq mem_clk axi_clk e = cc
same_clock_eq axi_clk core_clk e = cc
same_clock_eq axi_clk mem_clk e = cc

module _ (clk : Clk) (pm : PmState) where
  on-UsesOf :
      (d : Clock) (on : Clock → Bool) (h : Trace)
      → UsesOf pm on h
      → on d ≡ false
      → pm.has d ≡ true
      → UsesOf pm (set_on d true on) (clock_on d ∷ h)
  on-UsesOf d on h u off has c = elim (Bool-cases (same_clock c d)) [
    | inl e ↦
        let same = same_clock_eq c d e in
        ground (arith, e, u c, off, has, ap on same, ap pm.has same)
    | inr e ↦ ground (arith, e, u c)
  ]

  off-UsesOf :
      (d : Clock) (on : Clock → Bool) (h : Trace)
      → UsesOf pm on h
      → on d ≡ true
      → pm.has d ≡ true
      → UsesOf pm (set_on d false on) (clock_off d ∷ h)
  off-UsesOf d on h u off has c = elim (Bool-cases (same_clock c d)) [
    | inl e ↦
        let same = same_clock_eq c d e in
        ground (arith, e, u c, off, has, ap on same, ap pm.has same)
    | inr e ↦ ground (arith, e, u c)
  ]

  -- After an attempt to enable a clock that is off.
  abbrev Tried : Clock → (Clock → Bool) → Status → Trace → Type 0
  Tried d on ok h = UsesOf pm (set_on d true on) h
  Tried d on (err e) h = UsesOf pm on h

  -- A clock that is not there counts as enabled.
  absent-UsesOf :
      (d : Clock) (v : Bool) (on : Clock → Bool) (h : Trace)
      → UsesOf pm on h
      → pm.has d ≡ false
      → UsesOf pm (set_on d v on) h
  absent-UsesOf d v on h u has c = elim (Bool-cases (same_clock c d)) [
    | inl e ↦ ground (arith, e, u c, has, ap pm.has (same_clock_eq c d e))
    | inr e ↦ ground (arith, e, u c)
  ]

  started-Tried :
      (d : Clock) (on : Clock → Bool) (ret : Status) (h : Trace)
      → UsesOf pm on h
      → on d ≡ false
      → pm.has d ≡ true
      → Tried d on (started clk d ret h).0 (started clk d ret h).1
  unfolding started
  started-Tried d on ok h u off has = on-UsesOf d on h u off has
  started-Tried d on (err e) h u off has = u

  clock_enable-Tried :
      (d : Clock) (on : Clock → Bool) (h : Trace)
      → UsesOf pm on h
      → on d ≡ false
      → Tried d on (clock_enable clk pm d h).0 (clock_enable clk pm d h).1
  unfolding clock_enable
  clock_enable-Tried d on h u off = elim (Bool-cases (pm.has d)) [
    | inl has ↦ rw has (started-Tried d on (clk.prepare_enable d h) h u off has)
    | inr has ↦ rw has (absent-UsesOf d true on h u has)
  ]

  clock_disable-UsesOf :
      (d : Clock) (on : Clock → Bool) (h : Trace)
      → UsesOf pm on h
      → on d ≡ true
      → UsesOf pm (set_on d false on) (clock_disable clk pm d h).1
  unfolding clock_disable
  clock_disable-UsesOf d on h u off = elim (Bool-cases (pm.has d)) [
    | inl has ↦ rw has (off-UsesOf d on h u off has)
    | inr has ↦ rw has (absent-UsesOf d false on h u has)
  ]

  abbrev none_on : Clock → Bool
  none_on c = false

  abbrev core_on : Clock → Bool
  core_on = set_on core_clk true none_on

  abbrev mem_on : Clock → Bool
  mem_on = set_on mem_clk true core_on

  pointwise :
      (on on' : Clock → Bool) (h : Trace)
      → UsesOf pm on h
      → on core_clk ≡ on' core_clk
      → on mem_clk ≡ on' mem_clk
      → on axi_clk ≡ on' axi_clk
      → UsesOf pm on' h
  pointwise on on' h u e f g core_clk =
      u core_clk ∙ ap (λ b. if pm.has core_clk && b then 1 else 0) e
  pointwise on on' h u e f g mem_clk = u mem_clk ∙ ap (λ b. if pm.has mem_clk && b then 1 else 0) f
  pointwise on on' h u e f g axi_clk = u axi_clk ∙ ap (λ b. if pm.has axi_clk && b then 1 else 0) g

  module _ (fresh : pm.enabled ≡ false) where
    enable_axi-Balanced :
        (ret : Status) (h : Trace)
        → Tried axi_clk mem_on ret h
        → Balanced (enable_axi clk pm ret h).0.1 (enable_axi clk pm ret h).1
    unfolding enable_axi
    enable_axi-Balanced ok h u =
        pointwise (set_on axi_clk true mem_on) (λ c. true) h u refl refl refl
    enable_axi-Balanced (err e) h u =
        let first = clock_disable-UsesOf mem_clk mem_on h u refl in
        let h' = (clock_disable clk pm mem_clk h).1 in
        let second = clock_disable-UsesOf core_clk (set_on mem_clk false mem_on) h' first refl in
        pointwise _ (λ c. pm.enabled) (clock_disable clk pm core_clk h').1 second (sym fresh)
          (sym fresh) (sym fresh)

    enable_mem-Balanced :
        (ret : Status) (h : Trace)
        → Tried mem_clk core_on ret h
        → Balanced (enable_mem clk pm ret h).0.1 (enable_mem clk pm ret h).1
    unfolding enable_mem
    enable_mem-Balanced ok h u =
        enable_axi-Balanced (clock_enable clk pm axi_clk h).0 (clock_enable clk pm axi_clk h).1
          (clock_enable-Tried axi_clk mem_on h u refl)
    enable_mem-Balanced (err e) h u =
        let only = clock_disable-UsesOf core_clk core_on h u refl in
        pointwise _ (λ c. pm.enabled) (clock_disable clk pm core_clk h).1 only (sym fresh)
          (sym fresh) (sym fresh)

    enable_core-Balanced :
        (ret : Status) (h : Trace)
        → Tried core_clk none_on ret h
        → Balanced (enable_core clk pm ret h).0.1 (enable_core clk pm ret h).1
    unfolding enable_core
    enable_core-Balanced ok h u =
        enable_mem-Balanced (clock_enable clk pm mem_clk h).0 (clock_enable clk pm mem_clk h).1
          (clock_enable-Tried mem_clk core_on h u refl)
    enable_core-Balanced (err e) h u =
        pointwise none_on (λ c. pm.enabled) h u (sym fresh) (sym fresh) (sym fresh)

  already_enabled : (h : Trace) → pm.enabled ≡ true → pm_enable_clocks clk pm h ≡ ((ok, pm), h)
  unfolding pm_enable_clocks
  already_enabled h e = ap (λ (m : Io (Status × PmState)). m h) (if_true _ _ e)

  not_enabled :
      (h : Trace)
      → pm.enabled ≡ false
      → pm_enable_clocks clk pm h
        ≡ enable_core clk pm (clock_enable clk pm core_clk h).0 (clock_enable clk pm core_clk h).1
  unfolding pm_enable_clocks
  not_enabled h e = ap (λ (m : Io (Status × PmState)). m h) (if_false _ _ e)

  pub pm_enable_clocks-Balanced :
      (h : Trace)
      → Balanced pm h
      → Balanced (pm_enable_clocks clk pm h).0.1 (pm_enable_clocks clk pm h).1
  pm_enable_clocks-Balanced h u = elim (Bool-cases pm.enabled) [
    | inl e ↦ rw (already_enabled h e) u
    | inr e ↦
        let off = pointwise (λ c. pm.enabled) none_on h u e e e in
        rw (not_enabled h e) (
          enable_core-Balanced e (clock_enable clk pm core_clk h).0
            (clock_enable clk pm core_clk h).1 (clock_enable-Tried core_clk none_on h off refl))
  ]

  -- The state of the clocks after `mgpu_pm_disable_clocks`.
  abbrev all_off : Trace → Trace
  all_off h =
      (clock_disable clk pm core_clk
        (clock_disable clk pm mem_clk (clock_disable clk pm axi_clk h).1).1).1

  not_disabled : (h : Trace) → pm.enabled ≡ false → pm_disable_clocks clk pm h ≡ (pm, h)
  unfolding pm_disable_clocks
  not_disabled h e = ap (λ (m : Io PmState). m h) (if_true {b = not pm.enabled} _ _ (ap not e))

  disabled :
      (h : Trace)
      → pm.enabled ≡ true
      → pm_disable_clocks clk pm h ≡ (record pm { enabled = false }, all_off h)
  unfolding pm_disable_clocks
  disabled h e = ap (λ (m : Io PmState). m h) (if_false {b = not pm.enabled} _ _ (ap not e))

  pub pm_disable_clocks-Balanced :
      (h : Trace)
      → Balanced pm h
      → Balanced (pm_disable_clocks clk pm h).0 (pm_disable_clocks clk pm h).1
  pm_disable_clocks-Balanced h u = elim (Bool-cases pm.enabled) [
    | inr e ↦ rw (not_disabled h e) u
    | inl e ↦
        let every = λ (c : Clock). true in
        let u₀ = pointwise (λ c. pm.enabled) every h u e e e in
        let h₁ = (clock_disable clk pm axi_clk h).1 in
        let u₁ = clock_disable-UsesOf axi_clk every h u₀ refl in
        let h₂ = (clock_disable clk pm mem_clk h₁).1 in
        let u₂ = clock_disable-UsesOf mem_clk (set_on axi_clk false every) h₁ u₁ refl in
        let u₃ =
          clock_disable-UsesOf core_clk (set_on mem_clk false (set_on axi_clk false every)) h₂ u₂
            refl in
        rw (disabled h e) (pointwise _ none_on (all_off h) u₃ refl refl refl)
  ]
