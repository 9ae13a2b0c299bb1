-- ===== src/Ring/Window.antt =====
-- What the ring memory holds between the GPU's head and the driver's tail, and how
-- `mgpu_ring_write` extends it.
use native.Mathlib.Nat.{mod-eq_of_lt, mod-eq-sub-mod, mod-add-mod, mod-lt, add-zero, add_assoc}
use native.Mathlib.Decide.{dec_lt}
use package.amdhardware_kernel.Common.{
  ℕ, zero, suc, ◌+◌, ◌-◌, ◌*◌, ◌/◌, ◌%◌, ◌^◌, ◌≤◌, ◌<◌, ◌≡◌, ◌≢◌, ◌⊎◌, inl, inr, refl, ap, ap₂, ◌∙◌,
  List, [], ◌∷◌, ◌++◌, append-nil, append_assoc, arith, get_or, set, length, length-set,
  get_or-set_self, get_or-set_ne, bit_and_mask, bit_and, u32, sub32,
}
use package.amdhardware_kernel.Ring.{Ring, write_dwords, ring_write}

-- The `c` dwords from index `h` on, going round at `n`, oldest first.
unfoldable pub window : List ℕ → ℕ → ℕ → ℕ → List ℕ
window ring_ptr n h zero = []
window ring_ptr n h (suc c) = window ring_ptr n h c ++ (get_or ring_ptr ((h + c) % n) 0 ∷ [])

-- A ring of `2 ^ order` dwords: its size, its memory and its tail agree.
pub record IsRing (order : ℕ) (r : Ring) : Type 0 where
  pub bytes : r.size ≡ 4 * 2 ^ order
  pub small : 2 ^ order ≤ 65536
  pub memory : length r.vaddr ≡ 2 ^ order
  pub tail_in : r.tail < 2 ^ order

pub mod_cases : (x n : ℕ) → x < n + n → ((x < n) × (x % n ≡ x)) ⊎ ((n ≤ x) × (x % n ≡ x - n))
mod_cases x n h = elim (dec_lt x n) [
  | yes p ↦ inl (p, mod-eq_of_lt p)
  | no p ↦ inr (
    omega arith,
    mod-eq-sub-mod {n = x} {m = n} (omega arith) ∙ mod-eq_of_lt {n = x - n} {m = n} (omega arith),
  )
]

-- Two places fewer than `n` steps apart are two places.
slots_differ : (h i c n : ℕ) → h < n → i < c → c < n → (h + c) % n ≢ (h + i) % n
slots_differ h i c n hn ic cn =
    omega (arith, mod_cases (h + i) n (omega arith), mod_cases (h + c) n (omega arith))

window-set_above :
    (ring_ptr : List ℕ) (n h c d x : ℕ)
    → h < n
    → c < n
    → d ≤ c
    → window (set ring_ptr ((h + c) % n) x) n h d ≡ window ring_ptr n h d
unfolding window
window-set_above ring_ptr n h c zero x hn cn dc = refl
window-set_above ring_ptr n h c (suc d) x hn cn dc =
    ap₂ (λ a b. a ++ (b ∷ [])) (window-set_above ring_ptr n h c d x hn cn (omega arith))
      (get_or-set_ne ring_ptr _ _ x 0 (slots_differ h d c n hn (omega arith) cn))

window-set_end :
    (ring_ptr : List ℕ) (n h c x : ℕ)
    → h < n
    → c < n
    → length ring_ptr ≡ n
    → window (set ring_ptr ((h + c) % n) x) n h (suc c) ≡ window ring_ptr n h c ++ (x ∷ [])
unfolding window
window-set_end ring_ptr n h c x hn cn len =
    ap₂ (λ a b. a ++ (b ∷ [])) (window-set_above ring_ptr n h c c x hn cn (omega arith))
      (get_or-set_self ring_ptr _ x 0 (omega (arith, mod-lt (h + c) {m = n} (omega arith))))

-- The tail's next index.
pub next_index :
    (k t : ℕ)
    → 2 ^ k ≤ 65536
    → t < 2 ^ k
    → bit_and (u32 (t + 1)) (sub32 (2 ^ k) 1) ≡ (t + 1) % 2 ^ k
next_index k t small lt = ap₂ bit_and (omega arith) (omega arith) ∙ bit_and_mask k (t + 1)

record Wrote (k h c : ℕ) (xs ring_ptr : List ℕ) (out : List ℕ × ℕ) : Type 0 where
  holds : window out.0 (2 ^ k) h (c + length xs) ≡ window ring_ptr (2 ^ k) h c ++ xs
  memory : length out.0 ≡ length ring_ptr
  tail : out.1 ≡ (h + c + length xs) % 2 ^ k

index_step : (n h c t : ℕ) → t ≡ (h + c) % n → (t + 1) % n ≡ (h + suc c) % n
index_step n h c t te = rw (te, mod-add-mod) (ap (λ (m : ℕ). m % n) (omega arith))

write_dwords-Wrote :
    (k h c : ℕ) (xs ring_ptr : List ℕ) (t : ℕ)
    → 2 ^ k ≤ 65536
    → h < 2 ^ k
    → length ring_ptr ≡ 2 ^ k
    → t ≡ (h + c) % 2 ^ k
    → c + length xs < 2 ^ k
    → Wrote k h c xs ring_ptr (write_dwords (2 ^ k) ring_ptr t xs)
unfolding write_dwords
write_dwords-Wrote k h c [] ring_ptr t small hn len te room = record {
  holds = rw append-nil (ap (window ring_ptr (2 ^ k) h) (omega arith));
  memory = refl;
  tail = omega (arith, ap (λ (m : ℕ). m % 2 ^ k) (add-zero (h + c)));
}
write_dwords-Wrote k h c (x ∷ xs) ring_ptr t small hn len te room = put (
    write_dwords-Wrote k h (suc c) xs (set ring_ptr t x) _ small hn (length-set ring_ptr t x ∙ len)
      (next_index k t small (omega (arith, mod-lt (h + c) {m = 2 ^ k} (omega arith)))
        ∙ index_step (2 ^ k) h c t te)
      (omega arith))
  where
    joined : window (set ring_ptr t x) (2 ^ k) h (suc c) ≡ window ring_ptr (2 ^ k) h c ++ (x ∷ [])
    joined = rw te (window-set_end ring_ptr (2 ^ k) h c x hn (omega arith) len)

    put :
        {out : List ℕ × ℕ}
        → Wrote k h (suc c) xs (set ring_ptr t x) out
        → Wrote k h c (x ∷ xs) ring_ptr out
    put {out} later = record {
      holds =
          ap (window out.0 (2 ^ k) h) (omega arith)
          ∙ later.holds
          ∙ ap (λ w. w ++ xs) joined
          ∙ append_assoc (window ring_ptr (2 ^ k) h c) (x ∷ []) xs;
      memory = later.memory ∙ length-set ring_ptr t x;
      tail = later.tail ∙ ap (λ (m : ℕ). m % 2 ^ k) (omega arith);
    }

-- The tail is as many steps after the head as dwords are pending, and the other way round.
tail_of_pending : (n h t : ℕ) → h < n → t < n → t ≡ (h + (t + n - h) % n) % n
tail_of_pending n h t hn tn = omega (
  arith,
  mod_cases (t + n - h) n (omega arith),
  mod_cases (h + (t + n - h) % n) n (omega (arith, mod-lt (t + n - h) {m = n} (omega arith))),
)

pending_of_tail : (n h m : ℕ) → h < n → m < n → ((h + m) % n + n - h) % n ≡ m
pending_of_tail n h m hn mn = omega (
  arith,
  mod_cases (h + m) n (omega arith),
  mod_cases ((h + m) % n + n - h) n (omega (arith, mod_cases (h + m) n (omega arith))),
)

-- The number of dwords from the head `h` up to the tail.
abbrev pub pending : ℕ → ℕ → Ring → ℕ
pending k h r = (r.tail + 2 ^ k - h) % 2 ^ k

abbrev pub contents : ℕ → ℕ → Ring → List ℕ
contents k h r = window r.vaddr (2 ^ k) h (pending k h r)

stored :
    (k h : ℕ) (r : Ring) (dwords : List ℕ)
    → IsRing k r
    → h < 2 ^ k
    → pending k h r + length dwords < 2 ^ k
    → Wrote k h
        (pending k h r)
        dwords
        r.vaddr
        (write_dwords (u32 (r.size / 4)) r.vaddr r.tail dwords)
stored k h r dwords v hn room =
    let e : u32 (r.size / 4) ≡ 2 ^ k = omega arith in
    rw e (
      write_dwords-Wrote k h (pending k h r) dwords r.vaddr r.tail v.small hn v.memory
        (tail_of_pending (2 ^ k) h r.tail hn v.tail_in) room)

grown :
    (k h c l t : ℕ)
    → h < 2 ^ k
    → c + l < 2 ^ k
    → t ≡ (h + c + l) % 2 ^ k
    → (t + 2 ^ k - h) % 2 ^ k ≡ c + l
grown k h c l t hn room te = rw (te, add_assoc) (pending_of_tail (2 ^ k) h (c + l) hn room)

-- In a ring of 2^k dwords, with the GPU's head at any index `h`, `mgpu_ring_write` of fewer dwords
-- than keep one slot free leaves every dword that the GPU has not read, appends exactly the new ones
-- in order, keeps the size and the memory of the ring, and leaves the tail inside it.
pub ring_write-contents :
    (k h : ℕ) (r : Ring) (dwords : List ℕ)
    → IsRing k r
    → h < 2 ^ k
    → pending k h r + length dwords < 2 ^ k
    → (contents k h (ring_write r dwords) ≡ contents k h r ++ dwords)
      × IsRing k (ring_write r dwords)
      × (pending k h (ring_write r dwords) ≡ pending k h r + length dwords)
unfolding ring_write
ring_write-contents k h r dwords v hn room = (
  ap (window _ (2 ^ k) h) more ∙ w.holds,
  record {
    bytes = v.bytes;
    small = v.small;
    memory = w.memory ∙ v.memory;
    tail_in = rw w.tail (mod-lt (h + pending k h r + length dwords) (omega arith));
  },
  more,
)
  where
    w :
        Wrote k h
          (pending k h r)
          dwords
          r.vaddr
          (write_dwords (u32 (r.size / 4)) r.vaddr r.tail dwords)
    w = stored k h r dwords v hn room

    more : pending k h (ring_write r dwords) ≡ pending k h r + length dwords
    more = grown k h (pending k h r) (length dwords) _ hn room w.tail
