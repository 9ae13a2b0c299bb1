-- ===== src/Ring/Fifo/Runs.antt =====
-- The runs of the driver and the GPU on one ring.
use package.amdhardware_kernel.Common.{
  ℕ, zero, suc, ◌+◌, ◌-◌, ◌%◌, ◌^◌, ◌<◌, ◌≡◌, ◌≢◌, refl, sym, ap, ◌∙◌, List, [], ◌∷◌, ◌++◌,
  append-nil, append_assoc, arith, get_or, length, length-append,
}
use package.amdhardware_kernel.Ring.Window.{mod_cases, window, pending, contents}
use package.amdhardware_kernel.Ring.Space.{ring_space_dwords-add-pending}
use package.amdhardware_kernel.Ring.Fifo.{
  System, Action, looks, writes, reads, Step, look, write, read, Steps, stop, then, FifoRun, Holds,
  Step-Holds,
}

-- All dwords that a run writes and reads, in order.
abbrev pub written : List Action → List ℕ
written [] = []
written (looks ∷ rest) = written rest
written (writes dwords ∷ rest) = dwords ++ written rest
written (reads x ∷ rest) = written rest

abbrev pub taken : List Action → List ℕ
taken [] = []
taken (looks ∷ rest) = taken rest
taken (writes dwords ∷ rest) = taken rest
taken (reads x ∷ rest) = x ∷ taken rest

FifoRun-in_order :
    (q : List ℕ) (acts : List Action) (q' : List ℕ)
    → FifoRun q acts q'
    → q ++ written acts ≡ taken acts ++ q'
FifoRun-in_order q [] q' e = append-nil q ∙ e
FifoRun-in_order q (looks ∷ rest) q' (mid, (e, run)) =
    ap (λ l. l ++ written rest) (sym e) ∙ FifoRun-in_order mid rest q' run
FifoRun-in_order q (writes dwords ∷ rest) q' (mid, (e, run)) =
    sym (append_assoc q dwords (written rest))
    ∙ ap (λ l. l ++ written rest) (sym e)
    ∙ FifoRun-in_order mid rest q' run
FifoRun-in_order q (reads x ∷ rest) q' (mid, (e, run)) =
    ap (λ l. l ++ written rest) e ∙ ap (λ l. x ∷ l) (FifoRun-in_order mid rest q' run)

first_or : ℕ → List ℕ → ℕ
first_or a [] = a
first_or a (x ∷ xs) = x

rest_of : List ℕ → List ℕ
rest_of [] = []
rest_of (x ∷ xs) = xs

cons_parts : {x y : ℕ} {xs ys : List ℕ} → x ∷ xs ≡ y ∷ ys → (x ≡ y) × (xs ≡ ys)
unfolding first_or rest_of
cons_parts {x} e = (ap (first_or x) e, ap rest_of e)

abbrev pub reads_of : List ℕ → List Action
reads_of [] = []
reads_of (x ∷ xs) = reads x ∷ reads_of xs

module _ (k : ℕ) where
  -- Every run of a driver that writes no more dwords than mgpu_ring_space (the second definition)
  -- gave for the head it saw last, and of a GPU that reads while its head is not at the tail, in
  -- whatever order they take turns, is a run of the queue that the ring stands for: what is
  -- written goes to its end, what is read comes from its front.
  pub Steps-FifoRun :
      (s : System) (acts : List Action) (t : System) (q : List ℕ)
      → Holds k s q
      → Steps k s acts t
      → (q' : List ℕ) × (FifoRun q acts q' × Holds k t q')
  Steps-FifoRun s [] t q w stop = (q, (refl, w))
  Steps-FifoRun s (a ∷ acts) t q w (then step rest) =
      let (mid, (one, w')) = Step-Holds k s a _ q w step in
      let (q', (run, w'')) = Steps-FifoRun _ acts t mid w' rest in (q', ((mid, (one, run)), w''))

  -- On a ring that starts out empty the GPU has read, at any time, exactly the first of the dwords that
  -- were written, in their order, and the others lie between its head and the tail.
  pub Steps-in_order :
      (s : System) (acts : List Action) (t : System)
      → Holds k s []
      → Steps k s acts t
      → written acts ≡ taken acts ++ contents k t.head t.ring
  Steps-in_order s acts t w steps =
      let (q', (run, w')) = Steps-FifoRun s acts t [] w steps in
      FifoRun-in_order [] acts q' run ∙ ap (λ l. taken acts ++ l) (sym w'.queue)

  length-window : (p : List ℕ) (n h c : ℕ) → length (window p n h c) ≡ c
  unfolding window
  length-window p n h zero = refl
  length-window p n h (suc c) =
      omega (
        arith,
        length-append (window p n h c) (get_or p ((h + c) % n) 0 ∷ []),
        length-window p n h c,
      )

  not_at_tail : (s : System) (x : ℕ) (xs : List ℕ) → Holds k s (x ∷ xs) → s.head ≢ s.ring.tail
  not_at_tail s x xs w e = omega (
    arith,
    e,
    w.head_in,
    mod_cases (s.ring.tail + 2 ^ k - s.head) (2 ^ k) (omega arith),
    ap (λ (l : List ℕ). length l) w.queue,
    length-window s.ring.vaddr (2 ^ k) s.head (pending k s.head s.ring),
  )

  -- Whatever a well-formed ring with the head inside it holds, the GPU can read it to the end dword by dword, and when the driver
  -- then looks at the head, it has the space to write any dwords that are fewer than the ring has,
  -- and the ring holds those.
  pub Steps-drain :
      (s : System) (q dwords : List ℕ)
      → Holds k s q
      → length dwords < 2 ^ k
      → (t : System) × (Steps k s (reads_of q ++ (looks ∷ writes dwords ∷ [])) t × Holds k t dwords)
  Steps-drain s [] dwords w room =
      let space = ring_space_dwords-add-pending (λ h r. s.head) k s.ring [] w.valid w.head_in in
      let none_left = ap (λ (l : List ℕ). length l) w.queue in
      let size = length-window s.ring.vaddr (2 ^ k) s.head (pending k s.head s.ring) in
      let steps =
        then look (then (write dwords (omega (arith, space, none_left, size, room))) stop) in
      let (q', ((mid, (e, (mid', (e', e'')))), w')) =
        Steps-FifoRun s (looks ∷ writes dwords ∷ []) _ [] w steps in
      (_, (steps, rw (sym e'' ∙ e' ∙ ap (λ l. l ++ dwords) e) at w'))
  Steps-drain s (x ∷ xs) dwords w room =
      let t₀ : System = record s { head = (s.head + 1) % 2 ^ k } in
      let step : Step k s (reads (get_or s.ring.vaddr s.head 0)) t₀ = read (not_at_tail s x xs w) in
      let (mid, (e, w')) = Step-Holds k s _ _ (x ∷ xs) w step in
      let parts = cons_parts e in
      let (t, (rest, w'')) = Steps-drain t₀ xs dwords (rw (sym parts.1) at w') room in
      (t, (then (rw (sym parts.0) at step) rest, w''))
