-- ===== src/Klist/Rings.antt =====
-- Well-formed circular lists, and what the operations make of them.
use package.amdhardware_kernel.Common.{
  ℕ, ◌≡◌, ◌≢◌, refl, sym, ap, ◌∙◌, ◌⊎◌, inl, inr, false, List, [], ◌∷◌, ◌++◌, arith,
}
use package.amdhardware_kernel.Klist.{Links, update, put_between, is_poison, list_add_tail, done}

-- From `a` the links lead through the nodes in order to `b`.
abbrev pub Chain : (ℕ → ℕ) → ℕ → List ℕ → ℕ → Type 0
Chain f a [] b = f a ≡ b
Chain f a (x ∷ xs) b = (f a ≡ x) × Chain f x xs b

abbrev pub Outside : ℕ → List ℕ → Type 0
Outside a [] = Unit {0}
Outside a (x ∷ xs) = (x ≢ a) × Outside a xs

abbrev pub Distinct : List ℕ → Type 0
Distinct [] = Unit {0}
Distinct (x ∷ xs) = Outside x xs × Distinct xs

abbrev pub last : ℕ → List ℕ → ℕ
last a [] = a
last a (x ∷ xs) = last x xs

-- None of the nodes is a poison.
abbrev pub Sound : List ℕ → Type 0
Sound [] = Unit {0}
Sound (x ∷ xs) = (is_poison x ≡ false) × Sound xs

-- The list of this head holds these nodes.
pub record IsList (l : Links) (head : ℕ) (xs : List ℕ) : Type 0 where
  pub forth : Chain l.next head xs head
  pub back : l.prev head ≡ last head xs
  pub apart : Distinct (head ∷ xs)
  pub sound : Sound (head ∷ xs)

pub Chain-update :
    (f : ℕ → ℕ) (a : ℕ) (xs : List ℕ) (b q v : ℕ)
    → Outside q (a ∷ xs)
    → Chain f a xs b
    → Chain (update f q v) a xs b
Chain-update f a [] b q v out c = ground (arith)
Chain-update f a (x ∷ xs) b q v out c = (ground arith, Chain-update f x xs b q v out.1 c.1)

pub Outside-last : (q a : ℕ) (xs : List ℕ) → Outside q (a ∷ xs) → last a xs ≢ q
Outside-last q a [] out = out.0
Outside-last q a (x ∷ xs) out = Outside-last q x xs out.1

-- The last link of a chain is turned to a new node, which leads to the end.
pub Chain-append :
    (f : ℕ → ℕ) (a : ℕ) (xs : List ℕ) (b new : ℕ)
    → Distinct (a ∷ xs)
    → Outside new (a ∷ xs)
    → Chain f a xs b
    → Chain (update (update f new b) (last a xs) new) a (xs ++ (new ∷ [])) b
Chain-append f a [] b new d out c = (ground arith, ground arith)
Chain-append f a (x ∷ xs) b new d out c =
    (ground (arith, Outside-last a x xs d.0), Chain-append f x xs b new d.1 out.1 c.1)

pub Outside-append :
    (q : ℕ) (xs : List ℕ) (new : ℕ) → Outside q xs → new ≢ q → Outside q (xs ++ (new ∷ []))
Outside-append q [] new out n = (n, tt)
Outside-append q (x ∷ xs) new out n = (out.0, Outside-append q xs new out.1 n)

pub Distinct-append :
    (xs : List ℕ) (new : ℕ) → Distinct xs → Outside new xs → Distinct (xs ++ (new ∷ []))
Distinct-append [] new d out = (tt, tt)
Distinct-append (x ∷ xs) new d out =
    (Outside-append x xs new d.0 (λ e. out.0 (sym e)), Distinct-append xs new d.1 out.1)

pub last-append : (a : ℕ) (xs : List ℕ) (new : ℕ) → last a (xs ++ (new ∷ [])) ≡ new
last-append a [] new = refl
last-append a (x ∷ xs) new = last-append x xs new

pub last-Sound : (a : ℕ) (xs : List ℕ) → Sound (a ∷ xs) → is_poison (last a xs) ≡ false
last-Sound a [] s = s.0
last-Sound a (x ∷ xs) s = last-Sound x xs s.1

pub Sound-append :
    (xs : List ℕ) (new : ℕ) → Sound xs → is_poison new ≡ false → Sound (xs ++ (new ∷ []))
Sound-append [] new s p = (p, tt)
Sound-append (x ∷ xs) new s p = (s.0, Sound-append xs new s.1 p)

-- `list_add_tail` of a node that is not on the list succeeds, and the list then holds the node behind
-- the others.
pub list_add_tail-IsList :
    (l : Links) (head : ℕ) (xs : List ℕ) (new : ℕ)
    → IsList l head xs
    → Outside new (head ∷ xs)
    → is_poison new ≡ false
    → (list_add_tail new head l ≡ done (put_between new (last head xs) head l))
      × IsList (put_between new (last head xs) head l) head (xs ++ (new ∷ []))
unfolding list_add_tail
list_add_tail-IsList l head xs new i out p = (
  ground (arith, i.back, last-Sound head xs i.sound),
  record {
    forth = Chain-append l.next head xs head new i.apart out i.forth;
    back = ground (arith, last-append head xs new);
    apart = Distinct-append (head ∷ xs) new i.apart out;
    sound = Sound-append (head ∷ xs) new i.sound p;
  },
)

-- A list keeps its nodes when nodes are joined of which none is on it.
pub put_between-IsList :
    (l : Links) (head : ℕ) (xs : List ℕ) (new before after : ℕ)
    → IsList l head xs
    → Outside new (head ∷ xs)
    → Outside before (head ∷ xs)
    → after ≢ head
    → IsList (put_between new before after l) head xs
put_between-IsList l head xs new before after i out out' ne = record {
  forth =
      Chain-update _ head xs head before new out'
        (Chain-update l.next head xs head new after out i.forth);
  back = ground (arith, i.back, out.0);
  apart = i.apart;
  sound = i.sound;
}

-- The links of a chain lead from its nodes to its nodes and the end.
abbrev pub Among : ℕ → List ℕ → Type 0
Among p [] = ⊥
Among p (x ∷ xs) = (p ≡ x) ⊎ Among p xs

pub Chain-next :
    (f : ℕ → ℕ) (a : ℕ) (xs : List ℕ) (b p : ℕ)
    → Chain f a xs b
    → Among p (a ∷ xs)
    → Among (f p) (xs ++ (b ∷ []))
Chain-next f a [] b p c (inl e) = inl (ground (arith, ap f e))
Chain-next f a [] b p c (inr i) = elim i [ ]
Chain-next f a (x ∷ xs) b p c (inl e) = inl (ap f e ∙ c.0)
Chain-next f a (x ∷ xs) b p c (inr i) = inr (Chain-next f x xs b p c.1 i)

pub Among-split : (p : ℕ) (xs : List ℕ) (b : ℕ) → Among p (xs ++ (b ∷ [])) → Among p xs ⊎ (p ≡ b)
Among-split p [] b (inl e) = inr e
Among-split p [] b (inr i) = elim i [ ]
Among-split p (x ∷ xs) b (inl e) = inl (inl e)
Among-split p (x ∷ xs) b (inr i) = elim (Among-split p xs b i) [
  | inl j ↦ inl (inr j)
  | inr e ↦ inr e
]

pub Among-end : (p : ℕ) (xs : List ℕ) (b : ℕ) → p ≡ b → Among p (xs ++ (b ∷ []))
Among-end p [] b e = inl e
Among-end p (x ∷ xs) b e = inr (Among-end p xs b e)

pub Among-Outside : (p q : ℕ) (xs : List ℕ) → Among p xs → Outside q xs → p ≢ q
Among-Outside p q [] i o = elim i [ ]
Among-Outside p q (x ∷ xs) (inl e) o = λ f. o.0 (sym e ∙ f)
Among-Outside p q (x ∷ xs) (inr i) o = Among-Outside p q xs i o.1

pub Among-Sound : (p : ℕ) (xs : List ℕ) → Among p xs → Sound xs → is_poison p ≡ false
Among-Sound p [] i s = elim i [ ]
Among-Sound p (x ∷ xs) (inl e) s = ap is_poison e ∙ s.0
Among-Sound p (x ∷ xs) (inr i) s = Among-Sound p xs i s.1
