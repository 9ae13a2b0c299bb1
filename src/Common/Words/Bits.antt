-- ===== src/Common/Words/Bits.antt =====
-- `&` with a mask of low ones is the remainder by a power of two, at every width.
use Prim.Native.Nat.{
  ℕ, zero, suc, ◌+◌, ◌-◌, ◌*◌, ◌/◌, ◌%◌, ◌^◌, ◌≤◌, min, digits, bit_and, bit_and-bitwise,
}
use mathlib.Core.Path.{◌≡◌, sym, ap}
use native.Mathlib.Nat.{
  zero-mod, pow-suc, one-le-pow, div-div-eq-div-mul, mod-eq-sub-mul-div, div-mul-le_self,
}
use native.Mathlib.Omega.{arith}

mask_step : (k : ℕ) → ((2 ^ suc k - 1) / 2 ≡ 2 ^ k - 1) × ((2 ^ suc k - 1) % 2 ≡ 1)
mask_step k = omega (arith, pow-suc 2 k, one-le-pow k 2)

pow_two-suc : (k : ℕ) → 2 ^ suc k ≡ 2 * 2 ^ k
pow_two-suc k = omega (arith, pow-suc 2 k)

-- The digits of a remainder by a power of two.
mod_step : (a k : ℕ) → a % 2 ^ suc k ≡ (a / 2) % 2 ^ k * 2 + a % 2
mod_step a k = rw (pow_two-suc k) (
    omega (
      arith,
      div-div-eq-div-mul a 2 (2 ^ k),
      mod-eq-sub-mul-div a (2 * 2 ^ k),
      mod-eq-sub-mul-div (a / 2) (2 ^ k),
      ap (λ (t : ℕ). 2 ^ k * t) (div-div-eq-div-mul a 2 (2 ^ k)),
      div-mul-le_self (a / 2) (2 ^ k),
    ))

-- The digit-wise minimum with `k` ones, on any fuel from the number up.
masked : (fuel k a : ℕ) → a ≤ fuel → digits (λ y. zero) min fuel a (2 ^ k - 1) ≡ a % 2 ^ k
masked zero k zero le = sym (zero-mod (2 ^ k))
masked (suc fuel) k zero le = sym (zero-mod (2 ^ k))
masked zero k (suc a) le = absurd (omega arith)
masked (suc fuel) zero (suc a) le = omega (arith, masked fuel zero (suc a / 2) (omega arith))
masked (suc fuel) (suc k) (suc a) le =
    let (half, low) = mask_step k in
    omega (
      arith,
      half,
      low,
      ap (λ (t : ℕ). digits (λ y. zero) min fuel (suc a / 2) t) half,
      masked fuel k (suc a / 2) (omega arith),
      mod_step (suc a) k,
    )

-- `a & (2^k - 1)` is `a mod 2^k`.
pub bit_and_mask : (k a : ℕ) → bit_and a (2 ^ k - 1) ≡ a % 2 ^ k
bit_and_mask k a = omega (arith, bit_and-bitwise a (2 ^ k - 1), masked a k a (omega arith))
