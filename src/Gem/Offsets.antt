-- ===== src/Gem/Offsets.antt =====
-- The mmap offsets of kernel/drivers/gpu/mgpu/mgpu_gem.c: a search tree of the objects by their
-- offset. The rebalancing and the removal are the kernel's, and are arguments.
pub mod Alloc
pub mod Tests
use package.amdhardware_kernel.Common.{
  ℕ, ◌+◌, ◌^◌, ◌≤◌, ◌<◌, ◌≡◌, refl, ◌&&◌, Option, none, some, List, [], ◌∷◌, ◌++◌, arith, ltb, leb,
  if◌then◌else◌, u64,
}
use package.amdhardware_kernel.Bus.{eexist, Status, ok, err}

-- What the tree reads of a buffer object.
pub record Entry : Type 0 where
  pub bo : ℕ
  pub offset : ℕ
  pub size : ℕ

pub data Tree : Type 0 where
  leaf : Tree
  node : Tree → Entry → Tree → Tree

-- `mgpu_mmap_root` and `mgpu_mmap_offset_counter`
pub record MmapSpace : Type 0 where
  pub root : Tree
  pub counter : ℕ

-- `rb_insert_color`, `rb_erase` and `ALIGN(x, PAGE_SIZE)` of the kernel.
pub record RbTree : Type 0 where
  pub insert_color : Tree → Tree
  pub erase : ℕ → Tree → Tree
  pub align : ℕ → ℕ

-- The descent of `mgpu_bo_alloc_mmap_offset`, which links a new node at the empty place that it
-- reaches, and gives up at an equal offset.
pub link : Entry → Tree → Option Tree
link e leaf = some (node leaf e leaf)
link e (node l x r) =
    let left = link e l in
    let right = link e r in
    if ltb e.offset x.offset
    then elim left [ none ↦ none | some t ↦ some (node t x r) ]
    else if ltb x.offset e.offset
    then elim right [ none ↦ none | some t ↦ some (node l x t) ]
    else none

linked : RbTree → ℕ → ℕ → Option Tree → Tree → Status × MmapSpace
linked rb counter offset none root = (err eexist, record { root = root; counter = counter })
linked rb counter offset (some t) root =
    (ok, record { root = rb.insert_color t; counter = counter })

-- `mgpu_bo_alloc_mmap_offset` for the object `bo`: the status, the new space, and the offset that the
-- object gets.
pub alloc_mmap_offset : RbTree → ℕ → ℕ → MmapSpace → (Status × MmapSpace) × ℕ
unfolding linked
alloc_mmap_offset rb bo size s =
    let counter = rb.align (u64 (s.counter + size)) in
    let entry : Entry = record { bo = bo; offset = s.counter; size = size } in
    (linked rb counter s.counter (link entry s.root) s.root, s.counter)

-- `mgpu_bo_free_mmap_offset`
pub free_mmap_offset : RbTree → ℕ → MmapSpace → MmapSpace
free_mmap_offset rb bo s = record s { root = rb.erase bo s.root }

-- The descent of `mgpu_bo_lookup_by_offset`.
pub lookup_offset : ℕ → Tree → Option Entry
lookup_offset offset leaf = none
lookup_offset offset (node l x r) =
    let left = lookup_offset offset l in
    let right = lookup_offset offset r in
    if ltb offset x.offset
    then left
    else if leb (u64 (x.offset + x.size)) offset
    then right
    else some x

pub inorder : Tree → List Entry
inorder leaf = []
inorder (node l x r) = inorder l ++ (x ∷ inorder r)

-- All entries of a list have a size, lie from `lo` up to `hi`, in order, and do not overlap.
abbrev pub Ascending : ℕ → ℕ → List Entry → Type 0
Ascending lo hi [] = lo ≤ hi
Ascending lo hi (x ∷ xs) = (lo ≤ x.offset) × (0 < x.size) × Ascending (x.offset + x.size) hi xs

-- The offset lies in the entry's range.
abbrev pub Covers : ℕ → Entry → Type 0
Covers offset x = (x.offset ≤ offset) × (offset < x.offset + x.size)

-- The one entry of a list that covers an offset, looked for one after the other.
pub first_covering : ℕ → List Entry → Option Entry
first_covering offset [] = none
first_covering offset (x ∷ xs) =
    let rest = first_covering offset xs in
    if leb x.offset offset && ltb offset (x.offset + x.size) then some x else rest

none_below :
    (offset lo hi : ℕ) (xs : List Entry)
    → Ascending lo hi xs
    → offset < lo
    → first_covering offset xs ≡ none
unfolding first_covering
none_below offset lo hi [] a lt = refl
none_below offset lo hi (x ∷ xs) a lt =
    ground (arith, none_below offset (x.offset + x.size) hi xs a.2)

bounds : (lo hi : ℕ) (xs : List Entry) → Ascending lo hi xs → lo ≤ hi
bounds lo hi [] a = a
bounds lo hi (x ∷ xs) a = let b = bounds (x.offset + x.size) hi xs a.2 in let c = a.0 in omega arith

-- A sequence in order splits at any of its entries.
split_at :
    (lo hi : ℕ) (xs : List Entry) (x : Entry) (ys : List Entry)
    → Ascending lo hi (xs ++ (x ∷ ys))
    → Ascending lo x.offset xs × Ascending (x.offset + x.size) hi ys
split_at lo hi [] x ys a = (a.0, a.2)
split_at lo hi (w ∷ ws) x ys a =
    let rest = split_at (w.offset + w.size) hi ws x ys a.2 in ((a.0, a.1, rest.0), rest.1)

above :
    (offset lo hi : ℕ) (xs ys : List Entry)
    → Ascending lo hi xs
    → hi ≤ offset
    → first_covering offset (xs ++ ys) ≡ first_covering offset ys
unfolding first_covering
above offset lo hi [] ys a le = refl
above offset lo hi (x ∷ xs) ys a le =
    let b = bounds (x.offset + x.size) hi xs a.2 in
    ground (arith, above offset (x.offset + x.size) hi xs ys a.2)

within :
    (offset hi : ℕ) (xs ys : List Entry) (lo top : ℕ)
    → Ascending hi top ys
    → offset < hi
    → first_covering offset (xs ++ ys) ≡ first_covering offset xs
unfolding first_covering
within offset hi [] ys lo top a lt = none_below offset hi top ys a lt
within offset hi (x ∷ xs) ys lo top a lt = ground (arith, within offset hi xs ys lo top a)

rest-Ascending :
    (x : Entry) (hi : ℕ) (ys : List Entry) (lo : ℕ) (ws : List Entry)
    → Ascending lo hi (ws ++ (x ∷ ys))
    → Ascending x.offset hi (x ∷ ys)
rest-Ascending x hi ys lo [] a = (omega arith, a.1, a.2)
rest-Ascending x hi ys lo (w ∷ ws) a = rest-Ascending x hi ys (w.offset + w.size) ws a.2

at_hit :
    (offset : ℕ) (x : Entry) (ys : List Entry)
    → x.offset ≤ offset
    → offset < x.offset + x.size
    → first_covering offset (x ∷ ys) ≡ some x
unfolding first_covering
at_hit offset x ys le lt = ground arith

at_miss :
    (offset : ℕ) (x : Entry) (ys : List Entry)
    → x.offset + x.size ≤ offset
    → first_covering offset (x ∷ ys) ≡ first_covering offset ys
unfolding first_covering
at_miss offset x ys le = ground arith

-- In a tree whose offsets are in order and whose ranges end below 2^64 the lookup by offset finds what
-- a search through all entries finds: the object whose range covers the offset, if there is one.
pub lookup_offset-first_covering :
    (offset lo hi : ℕ) (t : Tree)
    → Ascending lo hi (inorder t)
    → hi < 2 ^ 64
    → lookup_offset offset t ≡ first_covering offset (inorder t)
unfolding lookup_offset inorder first_covering
lookup_offset-first_covering offset lo hi leaf a room = refl
lookup_offset-first_covering offset lo hi (node l x r) a room =
    let (al, ar) = split_at lo hi (inorder l) x (inorder r) a in
    let end_in = bounds (x.offset + x.size) hi (inorder r) ar in
    let start_in : x.offset < 2 ^ 64 = omega arith in
    let unwrapped : u64 (x.offset + x.size) ≡ x.offset + x.size = omega arith in
    ground (
      arith,
      unwrapped,
      lookup_offset-first_covering offset lo x.offset l al start_in,
      lookup_offset-first_covering offset (x.offset + x.size) hi r ar room,
      within offset x.offset (inorder l) (x ∷ inorder r) lo hi
          (rest-Ascending x hi (inorder r) lo (inorder l) a),
      above offset lo x.offset (inorder l) (x ∷ inorder r) al,
      at_hit offset x (inorder r),
      at_miss offset x (inorder r),
    )

-- An entry of a sequence in order has a size.
size_at :
    (lo hi : ℕ) (xs : List Entry) (x : Entry) (ys : List Entry)
    → Ascending lo hi (xs ++ (x ∷ ys))
    → 0 < x.size
size_at lo hi [] x ys a = a.1
size_at lo hi (w ∷ ws) x ys a = size_at (w.offset + w.size) hi ws x ys a.2
