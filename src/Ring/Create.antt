-- ===== src/Ring/Create.antt =====
-- `mgpu_ring_create`: the ring that it makes, given what the kernel's rounding promises.
use package.amdhardware_kernel.Common.{
  ℕ, zero, suc, ◌*◌, ◌/◌, ◌^◌, ◌≤◌, ◌<◌, ◌≡◌, true, Bool-cases, inl, inr, Option, none, some, arith,
  length-replicate, if◌then◌else◌,
}
use native.Mathlib.Nat.{pow-suc, one-le-pow}
use package.amdhardware_kernel.Bus.{Trace}
use package.amdhardware_kernel.Bus.Regs.{ring_size_min, ring_size_max}
use package.amdhardware_kernel.Ring.{Ring, Pow2, Alloc, ring_setup, ring_create}
use package.amdhardware_kernel.Ring.Window.{IsRing}

-- What include/linux/log2.h documents of the two functions.
pub record Rounds (p : Pow2) : Type 0 where
  pub test : (n : ℕ) → p.is_power_of_2 n ≡ true → (k : ℕ) × (n ≡ 2 ^ k)
  pub power : (n : ℕ) → 0 < n → (k : ℕ) × (p.roundup_pow_of_two n ≡ 2 ^ k)
  pub above : (n : ℕ) → 0 < n → n ≤ p.roundup_pow_of_two n
  pub least : (n k : ℕ) → 0 < n → n ≤ 2 ^ k → p.roundup_pow_of_two n ≤ 2 ^ k

-- The size that `mgpu_ring_create` goes on with.
abbrev pub rounded : Pow2 → ℕ → ℕ
rounded p size = if p.is_power_of_2 size then size else p.roundup_pow_of_two size

rounded_power : (p : Pow2) → Rounds p → (size : ℕ) → 0 < size → (k : ℕ) × (rounded p size ≡ 2 ^ k)
rounded_power p l size pos = elim (Bool-cases (p.is_power_of_2 size)) [
  | inl e ↦ rw e (l.test size e)
  | inr e ↦ rw e (l.power size pos)
]

rounded_bounds :
    (p : Pow2)
    → Rounds p
    → (size : ℕ) → ring_size_min ≤ size
    → size ≤ ring_size_max
    → (size ≤ rounded p size) × (rounded p size ≤ ring_size_max)
rounded_bounds p l size lo hi =
    ground (arith, l.above size (omega arith), l.least size 18 (omega arith) (omega arith))

-- A power of two from 4096 up is four times a power of two.
quarter : (s k : ℕ) → ring_size_min ≤ s → s ≡ 2 ^ k → (j : ℕ) × (s ≡ 4 * 2 ^ j)
quarter s zero lo e = absurd (omega arith)
quarter s (suc zero) lo e = absurd (omega arith)
quarter s (suc (suc j)) lo e = (j, omega (arith, pow-suc 2 (suc j), pow-suc 2 j))

ring_setup-IsRing :
    (size q j : ℕ) (dma : Option ℕ) (h : Trace) (r : Ring)
    → size ≡ 4 * 2 ^ j
    → size ≤ ring_size_max
    → (ring_setup size q dma h).0 ≡ some r
    → IsRing j r × (r.size ≡ size) × (r.tail ≡ 0) × (r.queue_id ≡ q)
unfolding ring_setup
ring_setup-IsRing size q j none h r e hi m = cc
ring_setup-IsRing size q j (some d) h r e hi m =
    let n = length-replicate (size / 4) (zero) in ground (arith, n, one-le-pow j 2)

asked :
    (p : Pow2) (a : Alloc) (size q : ℕ) (h : Trace) (r : Ring)
    → (ring_create p a size q h).0 ≡ some r
    → (ring_size_min ≤ size)
      × (size ≤ ring_size_max)
      × ((ring_setup (rounded p size) q a.dma_alloc h).0 ≡ some r)
unfolding ring_create
asked p a size q h r made = ground arith

-- Given the documented rounding to powers of two, what `mgpu_ring_create` returns for queue `q` is an
-- empty ring of a power of two of dwords, at least as large as asked and no larger than 256 KB,
-- and it was asked for a size between 4096 and 262144 bytes.
pub ring_create-IsRing :
    (p : Pow2) (a : Alloc) (size q : ℕ) (h : Trace) (r : Ring)
    → Rounds p
    → (ring_create p a size q h).0 ≡ some r
    → ((k : ℕ) × IsRing k r × (r.tail ≡ 0) × (r.queue_id ≡ q))
      × (size ≤ r.size)
      × (r.size ≤ ring_size_max)
      × (ring_size_min ≤ size)
ring_create-IsRing p a size q h r l made = put (asked p a size q h r made)
  where
    put :
        (ring_size_min ≤ size)
          × (size ≤ ring_size_max)
          × ((ring_setup (rounded p size) q a.dma_alloc h).0 ≡ some r)
        → ((k : ℕ) × IsRing k r × (r.tail ≡ 0) × (r.queue_id ≡ q))
          × (size ≤ r.size)
          × (r.size ≤ ring_size_max)
          × (ring_size_min ≤ size)
    put (lo, hi, setup) =
        let (up, down) = rounded_bounds p l size lo hi in
        let (m, e) = rounded_power p l size (omega arith) in
        let (j, four) = quarter (rounded p size) m (omega arith) e in
        let (v, same, tail, queue) =
          ring_setup-IsRing (rounded p size) q j a.dma_alloc h r four down setup in
        ((j, v, tail, queue), omega arith, omega arith, lo)
