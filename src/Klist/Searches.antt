-- ===== src/Klist/Searches.antt =====
-- What a search of a circular list finds, and when it cannot end.
use package.amdhardware_kernel.Common.{
  ℕ, zero, suc, ◌<◌, ◌≡◌, ◌≢◌, List, [], ◌∷◌, length, refl, ap, Bool, false, none, arith,
}
use package.amdhardware_kernel.Klist.Rings.{Chain, Outside, Sound, IsList}
use package.amdhardware_kernel.Klist.{
  search, walk, Links, is_poison, unending, done, search_from, walk_from,
}

module _ (l : Links) (head : ℕ) (P : ℕ → Type 0) where
  -- The nodes of `P` lead to each other only, and none of them is the head.
  pub record Trap : Type 0 where
    pub next_in : (p : ℕ) → P p → P (l.next p)
    pub not_head : (p : ℕ) → P p → p ≢ head
    pub no_poison : (p : ℕ) → P p → is_poison p ≡ false

  pub search_from-trapped :
      (test : ℕ → Bool)
      → Trap
      → ((p : ℕ) → P p → test p ≡ false)
      → (fuel p : ℕ) → P p
      → search_from l head test fuel p ≡ unending
  unfolding search_from
  search_from-trapped test t off zero p i = refl
  search_from-trapped test t off (suc fuel) p i = ground (
    arith,
    t.not_head p i,
    t.no_poison p i,
    off p i,
    search_from-trapped test t off fuel (l.next p) (t.next_in p i),
  )

  pub walk_from-trapped : Trap → (fuel p : ℕ) → P p → walk_from l head fuel p ≡ unending
  unfolding walk_from
  walk_from-trapped t zero p i = refl
  walk_from-trapped t (suc fuel) p i =
      ground (
        arith,
        t.not_head p i,
        t.no_poison p i,
        walk_from-trapped t fuel (l.next p) (t.next_in p i),
      )

-- No entry passes a test.
abbrev pub Fail : (ℕ → Bool) → List ℕ → Type 0
Fail test [] = Unit {0}
Fail test (x ∷ xs) = (test x ≡ false) × Fail test xs

module _ (l : Links) (head : ℕ) where
  -- The rounds of a loop over a list from a node `a` before `xs`.
  search_from-exhausted :
      (test : ℕ → Bool) (a : ℕ) (xs : List ℕ) (fuel : ℕ)
      → Chain l.next a xs head
      → Outside head xs
      → Sound xs
      → Fail test xs
      → length xs < fuel
      → search_from l head test fuel (l.next a) ≡ done none
  unfolding search_from
  search_from-exhausted test a [] zero c out s f n = absurd (omega arith)
  search_from-exhausted test a [] (suc fuel) c out s f n = ground (arith, c)
  search_from-exhausted test a (x ∷ xs) zero c out s f n = absurd (omega arith)
  search_from-exhausted test a (x ∷ xs) (suc fuel) c out s f n = ground (
    arith,
    c.0,
    ap is_poison c.0,
    ap test c.0,
    search_from-exhausted test x xs fuel c.1 out.1 s.1 f.1 (omega arith),
  )

  walk_from-all :
      (a : ℕ) (xs : List ℕ) (fuel : ℕ)
      → Chain l.next a xs head
      → Outside head xs
      → Sound xs
      → length xs < fuel
      → walk_from l head fuel (l.next a) ≡ done xs
  unfolding walk_from
  walk_from-all a [] zero c out s n = absurd (omega arith)
  walk_from-all a [] (suc fuel) c out s n = ground (arith, c)
  walk_from-all a (x ∷ xs) zero c out s n = absurd (omega arith)
  walk_from-all a (x ∷ xs) (suc fuel) c out s n =
      ground (arith, c.0, ap is_poison c.0, walk_from-all x xs fuel c.1 out.1 s.1 (omega arith))

  module _ (xs : List ℕ) (fuel : ℕ) (i : IsList l head xs) (n : length xs < fuel) where
    -- A search of a list none of whose entries passes finds none, in more rounds than entries.
    pub search-exhausted : (test : ℕ → Bool) → Fail test xs → search l head test fuel ≡ done none
    search-exhausted test f =
        search_from-exhausted test head xs fuel i.forth i.apart.0 i.sound.1 f n

    pub walk-all : walk l head fuel ≡ done xs
    walk-all = walk_from-all head xs fuel i.forth i.apart.0 i.sound.1 n
