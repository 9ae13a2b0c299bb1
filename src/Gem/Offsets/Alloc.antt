-- ===== src/Gem/Offsets/Alloc.antt =====
-- The allocation of mmap offsets, and the lookup after it.
use package.amdhardware_kernel.Common.{
  ℕ, ◌+◌, ◌^◌, ◌≤◌, ◌<◌, ◌≡◌, refl, sym, ap, ◌∙◌, ◌&&◌, some, List, [], ◌∷◌, ◌++◌, append-nil,
  append_assoc, arith, ltb, leb, if◌then◌else◌, u64,
}
use package.amdhardware_kernel.Bus.{ok}
use package.amdhardware_kernel.Gem.Offsets.{
  Tree, leaf, node, Entry, MmapSpace, RbTree, link, linked, alloc_mmap_offset, lookup_offset,
  inorder, Ascending, size_at, first_covering, within, split_at, bounds, above,
  lookup_offset-first_covering,
}

-- What the kernel documents: rebalancing keeps the order, and an alignment does not go down.
pub record Balances (rb : RbTree) : Type 0 where
  pub keeps : (t : Tree) → inorder (rb.insert_color t) ≡ inorder t
  pub up : (x : ℕ) → x ≤ rb.align x

-- The ranges of the tree lie in order below the counter.
abbrev pub IsSpace : MmapSpace → Type 0
IsSpace s = Ascending 0 s.counter (inorder s.root)

pub link-last :
    (e : Entry) (lo : ℕ) (t : Tree)
    → Ascending lo e.offset (inorder t)
    → (t' : Tree) × (link e t ≡ some t') × (inorder t' ≡ inorder t ++ (e ∷ []))
unfolding link inorder
link-last e lo leaf a = (node leaf e leaf, refl, refl)
link-last e lo (node l x r) a = put (link-last e (x.offset + x.size) r right)
  where
    right : Ascending (x.offset + x.size) e.offset (inorder r)
    right = (split_at lo e.offset (inorder l) x (inorder r) a).1

    sized : 0 < x.size
    sized = size_at lo e.offset (inorder l) x (inorder r) a

    put :
        (t' : Tree) × (link e r ≡ some t') × (inorder t' ≡ inorder r ++ (e ∷ []))
        → (t' : Tree) × (link e (node l x r) ≡ some t')
          × (inorder t' ≡ (inorder l ++ (x ∷ inorder r)) ++ (e ∷ []))
    put (t', found, order) = (
      node l x t',
      ground (arith, bounds (x.offset + x.size) e.offset (inorder r) right, sized),
      ap (λ ys. inorder l ++ (x ∷ ys)) order
          ∙ sym (append_assoc (inorder l) (x ∷ inorder r) (e ∷ [])),
    )

Ascending-last :
    (lo hi top : ℕ) (xs : List Entry) (e : Entry)
    → Ascending lo e.offset xs
    → 0 < e.size
    → e.offset + e.size ≤ top
    → Ascending lo top (xs ++ (e ∷ []))
Ascending-last lo hi top [] e a pos le = (a, pos, le)
Ascending-last lo hi top (x ∷ xs) e a pos le =
    (a.0, a.1, Ascending-last (x.offset + x.size) hi top xs e a.2 pos le)

abbrev pub entry_at : ℕ → ℕ → ℕ → Entry
entry_at bo offset size = record { bo = bo; offset = offset; size = size }

allocated :
    (rb : RbTree) (bo size : ℕ) (s : MmapSpace) (t' : Tree)
    → link (entry_at bo s.counter size) s.root ≡ some t'
    → alloc_mmap_offset rb bo size s ≡ (
      (ok, record { root = rb.insert_color t'; counter = rb.align (u64 (s.counter + size)) }),
      s.counter,
    )
unfolding alloc_mmap_offset
allocated rb bo size s t' found = rw (found, linked)

-- With the kernel's promises, a space in order and room below 2^64, the allocation of an offset for an
-- object that has a size returns 0, gives the counter as the offset, adds exactly that range after
-- all others, and leaves the space in order.
pub alloc_mmap_offset_lem :
    (rb : RbTree) (bo size : ℕ) (s : MmapSpace)
    → Balances rb
    → IsSpace s
    → 0 < size
    → s.counter + size < 2 ^ 64
    → let ((status, s'), offset) = alloc_mmap_offset rb bo size s in
      (status ≡ ok)
      × (offset ≡ s.counter)
      × (inorder s'.root ≡ inorder s.root ++ (entry_at bo s.counter size ∷ []))
      × IsSpace s'
alloc_mmap_offset_lem rb bo size s k v pos room =
    put (link-last (entry_at bo s.counter size) 0 s.root v)
  where
    e : Entry
    e = entry_at bo s.counter size

    put :
        (t' : Tree) × (link e s.root ≡ some t') × (inorder t' ≡ inorder s.root ++ (e ∷ []))
        → ((alloc_mmap_offset rb bo size s).0.0 ≡ ok)
          × ((alloc_mmap_offset rb bo size s).1 ≡ s.counter)
          × (inorder (alloc_mmap_offset rb bo size s).0.1.root ≡ inorder s.root ++ (e ∷ []))
          × IsSpace (alloc_mmap_offset rb bo size s).0.1
    put (t', found, order) = rw (allocated rb bo size s t' found) (
      refl,
      refl,
      k.keeps t' ∙ order,
      rw (k.keeps t', order)
          (Ascending-last 0 0 (rb.align (u64 (s.counter + size))) (inorder s.root) e v pos
            (omega (arith, k.up (u64 (s.counter + size))))),
    )

-- With the kernel's promises, a space in order, a size above zero and room below 2^64, a lookup
-- after an allocation finds the new object at every offset of its range, and at all others what was
-- found before.
pub lookup_offset-alloc :
    (rb : RbTree) (bo size : ℕ) (s : MmapSpace) (offset : ℕ)
    → Balances rb
    → IsSpace s
    → 0 < size
    → s.counter + size < 2 ^ 64
    → lookup_offset offset (alloc_mmap_offset rb bo size s).0.1.root ≡ (
        if leb s.counter offset && ltb offset (s.counter + size)
        then some (entry_at bo s.counter size)
        else lookup_offset offset s.root)
unfolding first_covering
lookup_offset-alloc rb bo size s offset k v pos room =
    let (status, offset_at, order, space) = alloc_mmap_offset_lem rb bo size s k v pos room in
    let place : Ascending 0 (s.counter + size)
        (inorder s.root ++ (entry_at bo s.counter size ∷ [])) =
      Ascending-last 0 0 (s.counter + size) (inorder s.root) (entry_at bo s.counter size) v pos
        (omega arith) in
    lookup_offset-first_covering offset 0 (s.counter + size) _ (rw order place) room
    ∙ ap (first_covering offset) order
    ∙ rw (lookup_offset-first_covering offset 0 s.counter s.root v (omega arith)) (
        ground (
          arith,
          above offset 0 s.counter (inorder s.root) (entry_at bo s.counter size ∷ []) v,
          above offset 0 s.counter (inorder s.root) [] v,
          append-nil (inorder s.root),
          within offset s.counter (inorder s.root) (entry_at bo s.counter size ∷ []) 0
              (s.counter + size) (omega arith, pos, omega arith),
        ))
