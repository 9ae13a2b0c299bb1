-- ===== src/Klist.antt =====
-- The kernel's circular lists (`struct list_head`, include/linux/list.h of the kernel), as the driver
-- uses them: a node that stands on two lists at once is on neither any more. The links are memory, a
-- function from the address of a node.
pub mod Rings
pub mod Searches
pub mod Moves
use package.amdhardware_kernel.Common.{
  ℕ, ◌≡◌, ap, zero, suc, Bool, ◌||◌, Option, none, some, List, [], ◌∷◌, ◌==◌, if◌then◌else◌,
}

pub record Links : Type 0 where
  pub next : ℕ → ℕ
  pub prev : ℕ → ℕ

abbrev pub update : {A : Type 0} → (ℕ → A) → ℕ → A → ℕ → A
update f a v x = if x == a then v else f x

-- How a piece of code ends: with a fault, the use of a poisoned link or an access that C does not
-- define; not within the rounds given to its loops; or with a result.
pub data Run (A : Type 0) : Type 0 where
  fault : Run A
  unending : Run A
  done : A → Run A

infixl 5 ◌&>◌
abbrev pub ◌&>◌ : {A B : Type 0} → Run A → (A → Run B) → Run B
fault &> f = fault
unending &> f = unending
done a &> f = f a

result_or : {A : Type 0} → A → Run A → A
result_or a fault = a
result_or a unending = a
result_or a (done b) = b

pub done-injective : {A : Type 0} {a b : A} → done a ≡ done b → a ≡ b
unfolding result_or
done-injective {A} {a} {b} e = ap (result_or a) e

-- `LIST_POISON1` and `LIST_POISON2`, which no node has as its address.
abbrev pub list_poison1 : ℕ
list_poison1 = 0x100

abbrev pub list_poison2 : ℕ
list_poison2 = 0x122

abbrev pub is_poison : ℕ → Bool
is_poison a = a == list_poison1 || a == list_poison2

-- `INIT_LIST_HEAD`
abbrev pub init_list_head : ℕ → Links → Links
init_list_head a l = record { next = update l.next a a; prev = update l.prev a a }

-- `__list_add(new, prev, next)`: the four writes in their order.
abbrev pub put_between : ℕ → ℕ → ℕ → Links → Links
put_between new before after l = record {
  next = update (update l.next new after) before new;
  prev = update (update l.prev after new) new before;
}

unfoldable pub list_add_tail : ℕ → ℕ → Links → Run Links
list_add_tail new head l =
    if is_poison (l.prev head) then fault else done (put_between new (l.prev head) head l)

unfoldable pub list_add : ℕ → ℕ → Links → Run Links
list_add new head l =
    if is_poison (l.next head) then fault else done (put_between new head (l.next head) l)

-- `__list_del_entry`
abbrev pub joined : ℕ → Links → Links
joined p l = record {
  next = update l.next (l.prev p) (l.next p);
  prev = update l.prev (l.next p) (l.prev p);
}

-- `list_del`
unfoldable pub list_del : ℕ → Links → Run Links
list_del p l =
    if is_poison (l.next p) || is_poison (l.prev p)
    then fault
    else done (record {
      next = update (joined p l).next p list_poison1;
      prev = update (joined p l).prev p list_poison2;
    })

unfoldable pub list_move_tail : ℕ → ℕ → Links → Run Links
unfolding list_add_tail
list_move_tail p head l =
    if is_poison (l.next p) || is_poison (l.prev p)
    then fault
    else list_add_tail p head (joined p l)

-- The entry at which a `list_for_each_entry` stops that looks for a test, from the node `p` on: no
-- entry when the head is reached.
unfoldable pub search_from : Links → ℕ → (ℕ → Bool) → ℕ → ℕ → Run (Option ℕ)
search_from l head test zero p = unending
search_from l head test (suc fuel) p =
    let rest = search_from l head test fuel (l.next p) in
    if p == head
    then done none
    else if is_poison p
    then fault
    else if test p
    then done (some p)
    else rest

-- The entries that a `list_for_each_entry_safe` goes through whose body leaves the links alone.
unfoldable pub walk_from : Links → ℕ → ℕ → ℕ → Run (List ℕ)
walk_from l head zero p = unending
walk_from l head (suc fuel) p =
    let rest = walk_from l head fuel (l.next p) in
    if p == head then done [] else if is_poison p then fault else rest &> λ ps. done (p ∷ ps)

abbrev pub search : Links → ℕ → (ℕ → Bool) → ℕ → Run (Option ℕ)
search l head test fuel = search_from l head test fuel (l.next head)

abbrev pub walk : Links → ℕ → ℕ → Run (List ℕ)
walk l head fuel = walk_from l head fuel (l.next head)
