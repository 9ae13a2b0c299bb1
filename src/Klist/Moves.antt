-- ===== src/Klist/Moves.antt =====
-- A node that is taken off its list and put last into another.
use package.amdhardware_kernel.Common.{
  ℕ, ◌≡◌, ◌≢◌, ◌∙◌, false, List, [], ◌∷◌, ◌++◌, arith, ◌||◌, if_false,
}
use package.amdhardware_kernel.Klist.{
  Links, done, fault, is_poison, joined, put_between, list_move_tail,
}
use package.amdhardware_kernel.Klist.Rings.{
  Outside, last, IsList, Chain-update, list_add_tail-IsList,
}

-- The node is on a list that shares no node with that of `head`.
pub record Linked (l : Links) (p head : ℕ) (xs : List ℕ) : Type 0 where
  pub next_sound : is_poison (l.next p) ≡ false
  pub prev_sound : is_poison (l.prev p) ≡ false
  pub next_off : l.next p ≢ head
  pub prev_off : Outside (l.prev p) (head ∷ xs)

pub joined-IsList :
    (l : Links) (p head : ℕ) (xs : List ℕ)
    → IsList l head xs
    → Linked l p head xs
    → IsList (joined p l) head xs
joined-IsList l p head xs i k = record {
  forth = Chain-update l.next head xs head (l.prev p) (l.next p) k.prev_off i.forth;
  back = ground (arith, i.back, k.next_off);
  apart = i.apart;
  sound = i.sound;
}

-- The links that `list_move_tail` leaves.
abbrev pub moved : ℕ → ℕ → List ℕ → Links → Links
moved p head xs l = put_between p (last head xs) head (joined p l)

pub list_move_tail-IsList :
    (l : Links) (p head : ℕ) (xs : List ℕ)
    → IsList l head xs
    → Linked l p head xs
    → Outside p (head ∷ xs)
    → is_poison p ≡ false
    → (list_move_tail p head l ≡ done (moved p head xs l))
      × IsList (moved p head xs l) head (xs ++ (p ∷ []))
unfolding list_move_tail
list_move_tail-IsList l p head xs i k out sound =
    let added =
      list_add_tail-IsList (joined p l) head xs p (joined-IsList l p head xs i k) out sound in
    (
      if_false {b = is_poison (l.next p) || is_poison (l.prev p)} fault _
            (ground (arith, k.next_sound, k.prev_sound))
          ∙ added.0,
      added.1,
    )
