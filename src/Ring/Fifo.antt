-- ===== src/Ring/Fifo.antt =====
-- The ring between the driver and the GPU as a system of two that take turns in any order: the
-- driver looks at the GPU's head and writes (`mgpu_ring_space`, `mgpu_ring_write` of
-- kernel/drivers/gpu/mgpu/mgpu_cmdq.c), the GPU reads the dword at its head and moves it on.
pub mod Runs
mod Tests
use native.Mathlib.Nat.{mod-add-mod, mod-lt, mod-eq_of_lt}
use package.amdhardware_kernel.Common.{
  ℕ, zero, suc, ◌+◌, ◌-◌, ◌*◌, ◌%◌, ◌^◌, ◌≤◌, ◌<◌, ◌≡◌, ◌≢◌, ◌⊎◌, inl, inr, refl, sym, ap, ap₂, ◌∙◌,
  List, [], ◌∷◌, ◌++◌, append-nil, append_assoc, arith, get_or, length,
}
use package.amdhardware_kernel.Ring.{Ring, ring_write, ring_space_dwords}
use package.amdhardware_kernel.Ring.Window.{
  window, IsRing, pending, contents, ring_write-contents, mod_cases,
}
use package.amdhardware_kernel.Ring.Space.{ring_space_dwords-add-pending}

-- `seen` is the head that the driver has read last; the GPU may be ahead of it.
pub record System : Type 0 where
  pub head : ℕ
  pub seen : ℕ
  pub ring : Ring

-- What happens to the dwords in a step.
pub data Action : Type 0 where
  looks : Action
  writes : List ℕ → Action
  reads : ℕ → Action

-- The space that the driver computes with the head that it has seen.
abbrev pub space_seen : System → ℕ
space_seen s = (ring_space_dwords (λ h r. s.seen) s.ring []).0

pub data Step (k : ℕ) : System → Action → System → Type 0 where
  look : {s : System} → Step k s looks (record s { seen = s.head })
  write :
      {s : System} (dwords : List ℕ)
      → length dwords ≤ space_seen s
      → Step k s (writes dwords) (record s { ring = ring_write s.ring dwords })
  read :
      {s : System}
      → s.head ≢ s.ring.tail
      → Step k s (reads (get_or s.ring.vaddr s.head 0)) (record s { head = (s.head + 1) % 2 ^ k })

pub data Steps (k : ℕ) : System → List Action → System → Type 0 where
  stop : {s : System} → Steps k s [] s
  then :
      {s t u : System} {a : Action} {as' : List Action}
      → Step k s a t
      → Steps k t as' u
      → Steps k s (a ∷ as') u

-- The queue that the ring implements: dwords go in at the end and come out at the front.
abbrev pub Fifo : List ℕ → Action → List ℕ → Type 0
Fifo q looks q' = q' ≡ q
Fifo q (writes dwords) q' = q' ≡ q ++ dwords
Fifo q (reads x) q' = q ≡ x ∷ q'

abbrev pub FifoRun : List ℕ → List Action → List ℕ → Type 0
FifoRun q [] q' = q ≡ q'
FifoRun q (a ∷ rest) q' = (mid : List ℕ) × (Fifo q a mid × FifoRun mid rest q')

-- The system stands for this queue.
pub record Holds (k : ℕ) (s : System) (q : List ℕ) : Type 0 where
  pub valid : IsRing k s.ring
  pub head_in : s.head < 2 ^ k
  pub seen_in : s.seen < 2 ^ k
  pub behind : pending k s.head s.ring ≤ pending k s.seen s.ring
  pub queue : contents k s.head s.ring ≡ q

window-front :
    (p : List ℕ) (n h c : ℕ)
    → window p n h (suc c) ≡ get_or p (h % n) 0 ∷ window p n ((h + 1) % n) c
unfolding window
window-front p n h zero = ap (λ i. get_or p (i % n) 0 ∷ []) (omega arith)
window-front p n h (suc c) =
    ap₂ (λ w i. w ++ (get_or p i 0 ∷ [])) (window-front p n h c)
      (ap (λ i. i % n) (omega arith) ∙ sym (mod-add-mod (h + 1) n c))

one_less : (n h t : ℕ) → h < n → t < n → h ≢ t → (t + n - h) % n ≡ suc ((t + n - (h + 1) % n) % n)
one_less n h t hn tn ne = omega (
  arith,
  mod_cases (t + n - h) n (omega arith),
  mod_cases (h + 1) n (omega arith),
  mod_cases (t + n - (h + 1) % n) n (omega arith),
)

pub front :
    (k h : ℕ) (r : Ring)
    → IsRing k r
    → h < 2 ^ k
    → h ≢ r.tail
    → (contents k h r ≡ get_or r.vaddr h 0 ∷ contents k ((h + 1) % 2 ^ k) r)
      × (pending k h r ≡ suc (pending k ((h + 1) % 2 ^ k) r))
front k h r v hn ne =
    let less = one_less (2 ^ k) h r.tail hn v.tail_in ne in
    (
      ap (window r.vaddr (2 ^ k) h) less
          ∙ window-front r.vaddr (2 ^ k) h _
          ∙ ap (λ i. get_or r.vaddr i 0 ∷ contents k ((h + 1) % 2 ^ k) r) (mod-eq_of_lt hn),
      less,
    )

module _ (k : ℕ) where
  -- Each step of the system is a step of the queue.
  pub Step-Holds :
      (s : System) (a : Action) (t : System) (q : List ℕ)
      → Holds k s q
      → Step k s a t
      → (mid : List ℕ) × (Fifo q a mid × Holds k t mid)
  Step-Holds s looks t q w look = (
    q,
    (
      refl,
      record {
        valid = w.valid;
        head_in = w.head_in;
        seen_in = w.head_in;
        behind = omega arith;
        queue = w.queue;
      },
    ),
  )
  Step-Holds s (writes ys) t q w (write xs fits) =
      let space = ring_space_dwords-add-pending (λ h r. s.seen) k s.ring [] w.valid w.seen_in in
      let by_head =
        ring_write-contents k s.head s.ring xs w.valid w.head_in
          (omega (arith, space, fits, w.behind)) in
      let by_seen =
        ring_write-contents k s.seen s.ring xs w.valid w.seen_in (omega (arith, space, fits)) in
      (
        q ++ xs,
        (
          refl,
          record {
            valid = by_head.1;
            head_in = w.head_in;
            seen_in = w.seen_in;
            behind = omega (arith, by_head.2, by_seen.2, w.behind);
            queue = by_head.0 ∙ ap (λ l. l ++ xs) w.queue;
          },
        ),
      )
  Step-Holds s (reads x) t q w (read ne) =
      let (first, less) = front k s.head s.ring w.valid w.head_in ne in
      (
        contents k ((s.head + 1) % 2 ^ k) s.ring,
        (
          sym w.queue ∙ first,
          record {
            valid = w.valid;
            head_in = mod-lt (s.head + 1) (omega (arith, w.head_in));
            seen_in = w.seen_in;
            behind = omega (arith, less, w.behind);
            queue = refl;
          },
        ),
      )
