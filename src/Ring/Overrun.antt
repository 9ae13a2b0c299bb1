-- ===== src/Ring/Overrun.antt =====
-- What the byte version of `mgpu_ring_space` lets through.
use native.Mathlib.Nat.{mod-lt, mod-add-mod, mod-eq_of_lt}
use package.amdhardware_kernel.Common.{
  ℕ, ◌+◌, ◌-◌, ◌/◌, ◌%◌, ◌^◌, ◌≤◌, ◌<◌, ◌≡◌, ap, ◌∙◌, List, [], ◌∷◌, arith, length, u32, set,
}
use package.amdhardware_kernel.Bus.{Trace, Hw, ok}
use package.amdhardware_kernel.Ring.{
  Ring, ring_space_bytes, ring_wait_space, write_dwords, ring_write,
}
use package.amdhardware_kernel.Ring.Window.{IsRing, pending, mod_cases, next_index}
use package.amdhardware_kernel.Ring.Space.{head_at, RoomAt, tried, granted_of_room}

-- However many dwords are written, the tail moves on by their number, round the ring.
tail-write_dwords :
    (k : ℕ) (xs ring_ptr : List ℕ) (t : ℕ)
    → 2 ^ k ≤ 65536
    → t < 2 ^ k
    → (write_dwords (2 ^ k) ring_ptr t xs).1 ≡ (t + length xs) % 2 ^ k
unfolding write_dwords
tail-write_dwords k [] ring_ptr t small lt =
    omega (arith, ap (λ (m : ℕ). m % 2 ^ k) {x = t + 0} {y = t} (omega arith), mod-eq_of_lt lt)
tail-write_dwords k (x ∷ xs) ring_ptr t small lt =
    ap (λ (next : ℕ). (write_dwords (2 ^ k) (set ring_ptr t x) next xs).1) (next_index k t small lt)
    ∙ tail-write_dwords k xs (set ring_ptr t x) ((t + 1) % 2 ^ k) small
        (mod-lt (t + 1) (omega arith))
    ∙ mod-add-mod (t + 1) (2 ^ k) (length xs)
    ∙ ap (λ (m : ℕ). m % 2 ^ k) (omega arith)

pub tail-ring_write :
    (k : ℕ) (r : Ring) (dwords : List ℕ)
    → IsRing k r
    → (ring_write r dwords).tail ≡ (r.tail + length dwords) % 2 ^ k
unfolding ring_write
tail-ring_write k r dwords v =
    let e : u32 (r.size / 4) ≡ 2 ^ k = omega arith in
    rw e (tail-write_dwords k dwords r.vaddr r.tail v.small v.tail_in)

wraps_to_head : (n h t l : ℕ) → h ≤ t → t < n → l ≡ n - (t - h) → ((t + l) % n + n - h) % n ≡ 0
wraps_to_head n h t l le lt e = omega (
  arith,
  mod_cases (t + l) n (omega arith),
  mod_cases ((t + l) % n + n - h) n (omega (arith, mod_cases (t + l) n (omega arith))),
)

many_bytes :
    (hw : Hw) (k : ℕ) (r : Ring) (h : Trace) (needed : ℕ)
    → IsRing k r
    → head_at hw r h ≤ r.tail
    → needed ≤ 2 ^ k
    → RoomAt (ring_space_bytes hw) r needed h 0
unfolding ring_space_bytes tried
many_bytes hw k r h needed v le few = ground arith

-- With the byte version of the space, at any head that is not beyond the tail, a write of as many
-- dwords as fill every slot of the ring is granted at the first look, and after it nothing is
-- pending: the GPU sees an empty ring, and all the commands in it are lost.
pub ring_wait_space-overrun :
    (hw : Hw) (k : ℕ) (r : Ring) (h : Trace) (dwords : List ℕ)
    → IsRing k r
    → head_at hw r h ≤ r.tail
    → pending k (head_at hw r h) r + length dwords ≡ 2 ^ k
    → ((ring_wait_space (ring_space_bytes hw) r (length dwords) h).0 ≡ ok)
      × (pending k (head_at hw r h) (ring_write r dwords) ≡ 0)
unfolding ring_wait_space
ring_wait_space-overrun hw k r h dwords v le full = (
  granted_of_room (ring_space_bytes hw) r 1000 (length dwords) 0 h (omega arith) room,
  rw (tail-ring_write k r dwords v)
      (wraps_to_head (2 ^ k) (head_at hw r h) r.tail (length dwords) le v.tail_in exact),
)
  where
    exact : length dwords ≡ 2 ^ k - (r.tail - head_at hw r h)
    exact = omega (arith, mod_cases (r.tail + 2 ^ k - head_at hw r h) (2 ^ k) (omega arith))

    room : RoomAt (ring_space_bytes hw) r (length dwords) h 0
    room = many_bytes hw k r h (length dwords) v le (omega arith)
