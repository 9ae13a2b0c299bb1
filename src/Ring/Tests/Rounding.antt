-- ===== src/Ring/Tests/Rounding.antt =====
-- A rounding to powers of two as the kernel documents it, to run the ring's creation with.
use package.amdhardware_kernel.Common.{
  ℕ, zero, suc, ◌+◌, ◌^◌, ◌≤◌, ◌<◌, ◌≡◌, refl, ap, inl, inr, false, arith, leb, ◌==◌, if◌then◌else◌,
  Bool-cases,
}
use native.Mathlib.Nat.{one-le-pow, pow-le-pow_right, two-pow-succ, le_trans}
use native.Mathlib.Decide.{dec_lt}
use package.amdhardware_kernel.Ring.{Pow2}
use package.amdhardware_kernel.Ring.Create.{Rounds}

-- The least power of two from `2 ^ j` up that is at least `n`, within `fuel` doublings.
round_up : ℕ → ℕ → ℕ → ℕ
round_up zero j n = 2 ^ j
round_up (suc fuel) j n =
    let rest = round_up fuel (suc j) n in if leb n (2 ^ j) then 2 ^ j else rest

unfoldable pub pow2 : Pow2
unfolding round_up
pow2 = record {
  is_power_of_2 = λ n. round_up 64 0 n == n;
  roundup_pow_of_two = λ n. round_up n 0 n;
}

round_up_power : (fuel j n : ℕ) → (k : ℕ) × (round_up fuel j n ≡ 2 ^ k)
unfolding round_up
round_up_power zero j n = (j, refl)
round_up_power (suc fuel) j n = elim (Bool-cases (leb n (2 ^ j))) [
  | inl fits ↦ (j, ground arith)
  | inr big ↦ let (k, e) = round_up_power fuel (suc j) n in (k, ground arith)
]

lt-two-pow : (n : ℕ) → n < 2 ^ n
lt-two-pow zero = omega arith
lt-two-pow (suc n) = omega (arith, two-pow-succ n, lt-two-pow n, one-le-pow n 2)

le-round_up : (fuel j n : ℕ) → n ≤ 2 ^ (j + fuel) → n ≤ round_up fuel j n
unfolding round_up
le-round_up zero j n h =
    le_trans h (omega (arith, ap (λ (t : ℕ). 2 ^ t) {x = j + 0} {y = j} (omega arith)))
le-round_up (suc fuel) j n h = ground (
  arith,
  ap (λ (t : ℕ). 2 ^ t) {x = j + suc fuel} {y = suc j + fuel} (omega arith),
  le-round_up fuel (suc j) n,
)

exponent_grows : (j k n : ℕ) → j ≤ k → n ≤ 2 ^ k → leb n (2 ^ j) ≡ false → suc j ≤ k
exponent_grows j k n jk h big = elim (dec_lt j k) [
  | yes p ↦ p
  | no p ↦ absurd (ground (arith, ap (λ (t : ℕ). 2 ^ t) {x = j} {y = k} (omega arith)))
]

round_up-least : (fuel j n k : ℕ) → j ≤ k → n ≤ 2 ^ k → round_up fuel j n ≤ 2 ^ k
unfolding round_up
round_up-least zero j n k jk h = pow-le-pow_right (omega arith) jk
round_up-least (suc fuel) j n k jk h = elim (Bool-cases (leb n (2 ^ j))) [
  | inl fits ↦ rw fits (pow-le-pow_right (omega arith) jk)
  | inr big ↦ rw big (round_up-least fuel (suc j) n k (exponent_grows j k n jk h big) h)
]

pub pow2-Rounds : Rounds pow2
unfolding pow2
pow2-Rounds = record {
  test = λ n e. let (k, p) = round_up_power 64 0 n in (k, ground arith);
  power = λ n pos. round_up_power n 0 n;
  above = λ n pos.
      le-round_up n 0 n
        (omega (arith, lt-two-pow n, ap (λ (t : ℕ). 2 ^ t) {x = 0 + n} {y = n} (omega arith)));
  least = λ n k pos h. round_up-least n 0 n k (omega arith) h;
}
