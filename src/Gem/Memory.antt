-- ===== src/Gem/Memory.antt =====
-- `mgpu_bo_create`: the memory, the handle and the offset of a new object. What `kzalloc`, the DMA
-- interface and `idr_alloc` answer are arguments.
use package.amdhardware_kernel.Common.{
  ℕ, ◌+◌, ◌^◌, ◌≤◌, ◌<◌, ◌≡◌, refl, ap, ap₂, ◌⊎◌, inl, inr, Bool, false, not, ◌&&◌, ◌||◌, Option,
  none, some, [], ◌∷◌, ◌++◌, append_assoc, arith, ltb, ◌==◌, if◌then◌else◌, u32, flag,
}
use package.amdhardware_kernel.Bus.{Errno, enomem, einval, Status, ok, err}
use package.amdhardware_kernel.Gem.Offsets.{RbTree, MmapSpace, alloc_mmap_offset}
use package.amdhardware_kernel.Gem.Offsets.Alloc.{Balances, IsSpace, alloc_mmap_offset_lem}
use package.amdhardware_kernel.Gem.{
  Bo, Gem, DmaCall, alloc_coherent, alloc_attrs, free_coherent, free_attrs, free_call, find_bo,
  drop_bo, idr_find, idr_remove, bo_destroy, bo_flags_coherent, bo_flags_write_combine,
}
use package.amdhardware_kernel.Gem.References.{Holds, freed, bo_destroy-last}

-- The three ways in which memory is allocated.
pub alloc_call : ℕ → ℕ → DmaCall
alloc_call flags size =
    if flag flags bo_flags_coherent
    then alloc_coherent size
    else if flag flags bo_flags_write_combine
    then alloc_attrs size
    else alloc_coherent size

pub is_cached : ℕ → Bool
is_cached flags = not (flag flags bo_flags_coherent) && not (flag flags bo_flags_write_combine)

abbrev pub called : DmaCall → Gem → Gem
called c g = record g { calls = g.calls ++ c ∷ [] }

-- `args` after a success: the size, the handle and the GPU's address.
pub record Created : Type 0 where
  pub size : ℕ
  pub handle : ℕ
  pub gpu_addr : ℕ

abbrev pub bo_size_max : ℕ
bo_size_max = 268435456

pub with_offset : Bo → Status → Gem → (Status × Option Created) × Gem
with_offset b ok g = (
  (ok, some (record { size = b.size; handle = b.handle; gpu_addr = u32 b.dma_addr })),
  record g { bos = b ∷ g.bos },
)
with_offset b (err e) g =
    ((err e, none), called (free_call b) (record g { idr = idr_remove b.handle g.idr }))

-- `mgpu_bo_alloc_handle` with what `idr_alloc` answers, and what follows.
pub with_handle : RbTree → Bo → ℕ ⊎ Errno → Gem → (Status × Option Created) × Gem
with_handle rb b (inl h) g =
    let ((status, space), offset) = alloc_mmap_offset rb b.addr b.size g.space in
    with_offset (record b { handle = h; mmap_offset = offset }) status
      (record g { idr = (h, b.addr) ∷ g.idr; space = space })
with_handle rb b (inr e) g = ((err e, none), called (free_call b) g)

pub with_memory : RbTree → Bo → Option (ℕ × ℕ) → ℕ ⊎ Errno → Gem → (Status × Option Created) × Gem
with_memory rb b none handle g = ((err enomem, none), g)
with_memory rb b (some (vaddr, dma_addr)) handle g =
    with_handle rb (record b { vaddr = vaddr; dma_addr = dma_addr }) handle g

pub with_object :
    RbTree
    → ℕ
    → ℕ
    → ℕ
    → Option ℕ
    → Option (ℕ × ℕ)
    → ℕ ⊎ Errno
    → Gem
    → (Status × Option Created) × Gem
with_object rb mdev size flags none memory handle g = ((err enomem, none), g)
with_object rb mdev size flags (some addr) memory handle g =
    with_memory rb
      (record {
        addr = addr;
        mdev = mdev;
        vaddr = 0;
        dma_addr = 0;
        size = size;
        flags = flags;
        refcount = 1;
        handle = 0;
        mmap_offset = 0;
        filp = none;
        cached = is_cached flags;
        dirty = false;
      })
      memory handle (called (alloc_call flags size) g)

-- `mgpu_bo_create` of `size` bytes.
pub bo_create :
    RbTree
    → ℕ
    → ℕ
    → ℕ
    → Option ℕ
    → Option (ℕ × ℕ)
    → ℕ ⊎ Errno
    → Gem
    → (Status × Option Created) × Gem
bo_create rb mdev size flags object memory handle g =
    if size == 0 || ltb bo_size_max size
    then ((err einval, none), g)
    else with_object rb mdev (rb.align size) flags object memory handle g

-- Memory of one call is given back by the other.
abbrev pub same_api : DmaCall → DmaCall → Bool
same_api (alloc_coherent n) (free_coherent m a) = n == m
same_api (alloc_attrs n) (free_attrs m a) = n == m
same_api _ _ = false

-- The memory of an object is given back to the interface it came from exactly when its flags ask for
-- coherent or for write-combined memory: that of all other objects, the default, is not.
pub free_call-alloc_call :
    (b : Bo)
    → same_api (alloc_call b.flags b.size) (free_call b)
      ≡ (flag b.flags bo_flags_coherent || flag b.flags bo_flags_write_combine)
unfolding alloc_call free_call
free_call-alloc_call b = ground arith

-- What `mgpu_bo_create` puts in the object.
abbrev pub new_bo : ℕ → ℕ → ℕ → ℕ → ℕ × ℕ → ℕ → ℕ → Bo
new_bo mdev size flags addr (vaddr, dma_addr) h offset = record {
  addr = addr;
  mdev = mdev;
  vaddr = vaddr;
  dma_addr = dma_addr;
  size = size;
  flags = flags;
  refcount = 1;
  handle = h;
  mmap_offset = offset;
  filp = none;
  cached = is_cached flags;
  dirty = false;
}

-- Where everything is granted, the result of `mgpu_bo_create`.
abbrev pub granted : RbTree → ℕ → ℕ → ℕ → ℕ → ℕ × ℕ → ℕ → Gem → Gem
granted rb mdev size flags addr m h g = record {
  bos = new_bo mdev (rb.align size) flags addr m h g.space.counter ∷ g.bos;
  idr = (h, addr) ∷ g.idr;
  space = (alloc_mmap_offset rb addr (rb.align size) g.space).0.1;
  calls = g.calls ++ alloc_call flags (rb.align size) ∷ [];
}

with_handle-granted :
    (rb : RbTree) (b : Bo) (h : ℕ) (g : Gem) (space : MmapSpace) (offset : ℕ)
    → alloc_mmap_offset rb b.addr b.size g.space ≡ ((ok, space), offset)
    → with_handle rb b (inl h) g ≡ (
      (ok, some (record { size = b.size; handle = h; gpu_addr = u32 b.dma_addr })),
      record g {
        bos = record b { handle = h; mmap_offset = offset } ∷ g.bos;
        idr = (h, b.addr) ∷ g.idr;
        space = space;
      },
    )
unfolding with_handle with_offset
with_handle-granted rb b h g space offset e = rw e refl

in_range : (size : ℕ) → 0 < size → size ≤ bo_size_max → (size == 0 || ltb bo_size_max size) ≡ false
in_range size pos le = ground arith

-- When the object, the memory and the handle are granted, a size from 1 to 256 MB gives a handle, the
-- low half of the memory's address, and one object that the handle names, with one reference and the
-- next offset.
pub bo_create-granted :
    (rb : RbTree) (mdev size flags addr : ℕ) (m : ℕ × ℕ) (h : ℕ) (g : Gem)
    → Balances rb
    → IsSpace g.space
    → 0 < size
    → size ≤ bo_size_max
    → g.space.counter + rb.align size < 2 ^ 64
    → bo_create rb mdev size flags (some addr) (some m) (inl h) g ≡ (
      (ok, some (record { size = rb.align size; handle = h; gpu_addr = u32 m.1 })),
      granted rb mdev size flags addr m h g,
    )
unfolding bo_create with_object with_memory is_cached
bo_create-granted rb mdev size flags addr m h g bal v pos le room =
    let up = bal.up size in
    let (status, place, _, _) =
      alloc_mmap_offset_lem rb addr (rb.align size) g.space bal v (omega arith) room in
    let made = alloc_mmap_offset rb addr (rb.align size) g.space in
    rw (in_range size pos le) (
      with_handle-granted rb (new_bo mdev (rb.align size) flags addr m 0 0) h
        (called (alloc_call flags (rb.align size)) g) made.0.1 g.space.counter
        (ap₂ (λ s o. ((s, made.0.1), o)) status place))

-- An object that is made where no live object stands holds its handle.
pub granted-Holds :
    (rb : RbTree) (mdev size flags addr : ℕ) (m : ℕ × ℕ) (h : ℕ) (g : Gem)
    → find_bo addr g.bos ≡ none
    → Holds
        (granted rb mdev size flags addr m h g)
        mdev
        h
        (new_bo mdev (rb.align size) flags addr m h g.space.counter)
unfolding drop_bo find_bo idr_find
granted-Holds rb mdev size flags addr m h g new = record {
  named = ground arith;
  live = ground arith;
  own = refl;
  once = ground (arith, new);
  handled = refl;
}

-- With the kernel's promises, a space in order with room below 2^64, a size from 1 to 256 MB and all
-- that is asked for granted: an object that is made where no live object stands is destroyed by its
-- handle, which takes the object and the handle away again, and gives back its memory, by its size
-- and its address, to the coherent interface if it was asked for and else by dma_free_attrs, which is
-- not where memory of the default flags comes from.
pub bo_create-destroy :
    (rb : RbTree) (mdev size flags addr : ℕ) (m : ℕ × ℕ) (h : ℕ) (g : Gem)
    → Balances rb
    → IsSpace g.space
    → 0 < size
    → size ≤ bo_size_max
    → g.space.counter + rb.align size < 2 ^ 64
    → find_bo addr g.bos ≡ none
    → 0 < m.0
    → let made = granted rb mdev size flags addr m h g in
      let b = new_bo mdev (rb.align size) flags addr m h g.space.counter in
      ((bo_create rb mdev size flags (some addr) (some m) (inl h) g).1 ≡ made)
      × (bo_destroy rb mdev h made ≡ some (ok, freed rb b made))
      × ((freed rb b made).bos ≡ g.bos)
      × ((freed rb b made).idr ≡ idr_remove h g.idr)
      × ((freed rb b made).calls
          ≡ g.calls
            ++ ((if flag flags bo_flags_coherent
                  then alloc_coherent (rb.align size)
                  else if flag flags bo_flags_write_combine
                  then alloc_attrs (rb.align size)
                  else alloc_coherent (rb.align size))
                ∷ (if flag flags bo_flags_coherent
                    then free_coherent (rb.align size) m.0
                    else free_attrs (rb.align size) m.0)
                ∷ []))
unfolding drop_bo find_bo idr_find idr_remove alloc_call free_call
bo_create-destroy rb mdev size flags addr m h g bal space pos le room new mem =
    let made = granted rb mdev size flags addr m h g in
    let b = new_bo mdev (rb.align size) flags addr m h g.space.counter in
    let v = granted-Holds rb mdev size flags addr m h g new in
    (
      ap (λ r. r.1) (bo_create-granted rb mdev size flags addr m h g bal space pos le room),
      (bo_destroy-last rb made mdev h b v refl).0,
      ground arith,
      ground arith,
      ground
          (arith, append_assoc g.calls (alloc_call flags (rb.align size) ∷ []) (free_call b ∷ [])),
    )
