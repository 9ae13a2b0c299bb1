-- ===== src/Ring/Space.antt =====
-- `mgpu_ring_space` and `mgpu_ring_wait_space`: what is measured and what a granted wait means.
use package.amdhardware_kernel.Common.{
  ℕ, zero, suc, ◌+◌, ◌-◌, ◌^◌, ◌≤◌, ◌<◌, ◌≡◌, ◌↔◌, inl, inr, ◌∷◌, true, false, Bool-cases, arith,
  ltb,
}
use package.amdhardware_kernel.Bus.{sleep, Trace, Hw, Io, ok}
use package.amdhardware_kernel.Bus.Regs.{reg_cmd_head}
use package.amdhardware_kernel.Ring.{
  Ring, queue_reg, ring_space_dwords, wait_space, ring_wait_space,
}
use package.amdhardware_kernel.Ring.Window.{IsRing, pending, mod_cases}

module _ (space : Ring → Io ℕ) (r : Ring) where
  -- The bus after `k` looks at the space that were each followed by a delay.
  unfoldable pub tried : ℕ → Trace → Trace
  tried zero h = h
  tried (suc k) h = tried k (sleep 1 ∷ (space r h).1)

  -- The look after `k` others finds room for `needed` dwords.
  abbrev pub RoomAt : ℕ → Trace → ℕ → Type 0
  RoomAt needed h k = ltb (space r (tried k h)).0 needed ≡ false

  -- A look that found room, as the last thing on the bus, among the first `t` and one more.
  abbrev pub Granted : ℕ → ℕ → Trace → Trace → Type 0
  Granted t needed h h' = (k : ℕ) × (k ≤ t) × RoomAt needed h k × (h' ≡ (space r (tried k h)).1)

  -- What a granted wait has seen.
  pub granted :
      (t needed : ℕ) (h : Trace)
      → (wait_space space r needed t h).0 ≡ ok
      → Granted t needed h (wait_space space r needed t h).1
  unfolding wait_space tried
  granted zero needed h e = (0, omega arith, ground arith, ground arith)
  granted (suc t) needed h e = elim (Bool-cases (ltb (space r h).0 needed)) [
    | inr room ↦ (0, omega arith, room, ground arith)
    | inl full ↦ later full (granted t needed (sleep 1 ∷ (space r h).1) (ground arith))
  ]
    where
      later :
          ltb (space r h).0 needed ≡ true
          → Granted t needed
              (sleep 1 ∷ (space r h).1)
              (wait_space space r needed t (sleep 1 ∷ (space r h).1)).1
          → Granted (suc t) needed h (wait_space space r needed (suc t) h).1
      later full (k, le, room, e) = (suc k, omega arith, room, ground arith)

  pub granted_of_room :
      (t needed k : ℕ) (h : Trace)
      → k ≤ t
      → RoomAt needed h k
      → (wait_space space r needed t h).0 ≡ ok
  unfolding wait_space tried
  granted_of_room zero needed zero h le room = ground arith
  granted_of_room zero needed (suc k) h le room = elim le [ ]
  granted_of_room (suc t) needed zero h le room = ground arith
  granted_of_room (suc t) needed (suc k) h le room =
      ground (arith, granted_of_room t needed k (sleep 1 ∷ (space r h).1))

  -- Whatever measures the space, `mgpu_ring_wait_space` returns 0 exactly when one of its 1001 looks,
  -- a millisecond apart, finds at least the dwords that are needed.
  pub ring_wait_space-ok :
      (needed : ℕ) (h : Trace)
      → ((ring_wait_space space r needed h).0 ≡ ok) ↔ ((k : ℕ) × (k ≤ 1000) × RoomAt needed h k)
  unfolding ring_wait_space
  ring_wait_space-ok needed h =
      ((λ e. seen (granted 1000 needed h e)), λ w. granted_of_room 1000 needed w.0 h w.1 w.2)
    where
      seen :
          Granted 1000 needed h (wait_space space r needed 1000 h).1
          → (k : ℕ) × (k ≤ 1000) × RoomAt needed h k
      seen (k, le, room, e) = (k, le, room)

-- The head register of the ring's queue, read at this point of the bus.
abbrev pub head_at : Hw → Ring → Trace → ℕ
head_at hw r h = hw h (queue_reg reg_cmd_head r.queue_id)

-- The space in dwords, the dwords pending and one slot that stays free make up the ring, for any
-- head that the GPU reports inside a ring of 2^k dwords.
pub ring_space_dwords-add-pending :
    (hw : Hw) (k : ℕ) (r : Ring) (h : Trace)
    → IsRing k r
    → head_at hw r h < 2 ^ k
    → (ring_space_dwords hw r h).0 + pending k (head_at hw r h) r + 1 ≡ 2 ^ k
unfolding ring_space_dwords
ring_space_dwords-add-pending hw k r h v hn =
    ground (arith, mod_cases (r.tail + 2 ^ k - head_at hw r h) (2 ^ k) (omega arith))
