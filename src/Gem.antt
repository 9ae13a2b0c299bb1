-- ===== src/Gem.antt =====
-- kernel/drivers/gpu/mgpu/mgpu_gem.c: buffer objects, their references and their handles. The live
-- objects are a list, and a pointer is the address of one; what reads a freed object is a fault.
pub mod Offsets
pub mod References
pub mod Mapping
pub mod Memory
pub mod Locking
pub mod Cleanup
pub mod Tests
use package.amdhardware_kernel.Common.{
  ℕ, ◌+◌, ◌-◌, Bool, false, not, Option, none, some, List, [], ◌∷◌, ◌++◌, ltb, ◌==◌, if◌then◌else◌,
  flag,
}
use package.amdhardware_kernel.Bus.{eperm, einval, Status, ok, err}
use Offsets.{Entry, MmapSpace, RbTree, free_mmap_offset, lookup_offset}

-- The calls that take DMA memory of a size, that give it back, and that synchronise the cache for an
-- address and a size.
pub data DmaCall : Type 0 where
  alloc_coherent : ℕ → DmaCall
  alloc_attrs : ℕ → DmaCall
  free_coherent : ℕ → ℕ → DmaCall
  free_attrs : ℕ → ℕ → DmaCall
  sync_for_cpu : ℕ → ℕ → DmaCall
  sync_for_device : ℕ → ℕ → DmaCall

pub record Bo : Type 0 where
  pub addr : ℕ
  pub mdev : ℕ
  pub vaddr : ℕ
  pub dma_addr : ℕ
  pub size : ℕ
  pub flags : ℕ
  pub refcount : ℕ
  pub handle : ℕ
  pub mmap_offset : ℕ
  pub filp : Option ℕ
  pub cached : Bool
  pub dirty : Bool

-- The objects, the handles of `mgpu_bo_idr`, the mmap offsets and the calls to the DMA interface.
pub record Gem : Type 0 where
  pub bos : List Bo
  pub idr : List (ℕ × ℕ)
  pub space : MmapSpace
  pub calls : List DmaCall

abbrev pub bo_flags_cached : ℕ
bo_flags_cached = 1

abbrev pub bo_flags_coherent : ℕ
bo_flags_coherent = 2

abbrev pub bo_flags_write_combine : ℕ
bo_flags_write_combine = 4

-- The object at an address, if it is live.
unfoldable pub find_bo : ℕ → List Bo → Option Bo
find_bo p [] = none
find_bo p (b ∷ bs) = let rest = find_bo p bs in if b.addr == p then some b else rest

pub put_bo : Bo → List Bo → List Bo
put_bo c [] = []
put_bo c (b ∷ bs) = let rest = put_bo c bs in if b.addr == c.addr then c ∷ bs else b ∷ rest

pub drop_bo : ℕ → List Bo → List Bo
drop_bo p [] = []
drop_bo p (b ∷ bs) = let rest = drop_bo p bs in if b.addr == p then bs else b ∷ rest

-- `idr_find` and `idr_remove`
pub idr_find : ℕ → List (ℕ × ℕ) → Option ℕ
idr_find handle [] = none
idr_find handle ((h, p) ∷ idr) =
    let rest = idr_find handle idr in if h == handle then some p else rest

pub idr_remove : ℕ → List (ℕ × ℕ) → List (ℕ × ℕ)
idr_remove handle [] = []
idr_remove handle ((h, p) ∷ idr) =
    let rest = idr_remove handle idr in if h == handle then rest else (h, p) ∷ rest

-- `none` is a fault: a pointer to an object that has been freed was used.
abbrev pub Run : Type 0 → Type 0
Run A = Gem → Option (A × Gem)

infixl 5 ◌>>=◌ ◌>>◌
abbrev pub ◌>>=◌ : {A B : Type 0} → Run A → (A → Run B) → Run B
◌>>=◌ m f g = elim (m g) [ none ↦ none | some (a, g') ↦ f a g' ]

abbrev pub ◌>>◌ : {B : Type 0} → Run (Unit {0}) → Run B → Run B
◌>>◌ m k g = elim (m g) [ none ↦ none | some (a, g') ↦ k g' ]

abbrev pub give : {A : Type 0} → A → Run A
give a g = some (a, g)

-- Reading the object that a pointer means.
abbrev pub deref : ℕ → Run Bo
deref p g = elim (find_bo p g.bos) [ none ↦ none | some b ↦ some (b, g) ]

abbrev pub store : Bo → Run (Unit {0})
store b g = some (tt, record g { bos = put_bo b g.bos })

-- `kref_get`
pub bo_get : ℕ → Run (Unit {0})
bo_get p = do b ← deref p; store (record b { refcount = b.refcount + 1 })

-- `mgpu_bo_lookup`: a pointer, or `none` for NULL.
looked_up : ℕ → Option ℕ → Run (Option ℕ)
looked_up mdev none = give none
looked_up mdev (some p) = do
  b ← deref p
  if b.mdev == mdev
      then (do store (record b { refcount = b.refcount + 1 }); give (some p))
      else give none

pub bo_lookup : ℕ → ℕ → Run (Option ℕ)
unfolding looked_up
bo_lookup mdev handle g = looked_up mdev (idr_find handle g.idr) g

-- `mgpu_bo_lookup_by_offset`
pub looked_up_entry : Option Entry → Run (Option ℕ)
unfolding bo_get
looked_up_entry none = give none
looked_up_entry (some e) = do bo_get e.bo; give (some e.bo)

pub bo_lookup_by_offset : ℕ → Run (Option ℕ)
unfolding looked_up_entry
bo_lookup_by_offset offset g = looked_up_entry (lookup_offset offset g.space.root) g

-- `if (!bo->filp) bo->filp = filp;`
pub owner : ℕ → Option ℕ → Option ℕ
owner filp none = some filp
owner filp (some f) = some f

-- `bo->filp && bo->filp != filp`
abbrev pub foreign : ℕ → Option ℕ → Bool
foreign filp none = false
foreign filp (some f) = not (f == filp)

-- How the memory of an object is given back: `mgpu_bo_free` and the errors of `mgpu_bo_create`.
unfoldable pub free_call : Bo → DmaCall
free_call b =
    if flag b.flags bo_flags_coherent
    then free_coherent b.size b.vaddr
    else free_attrs b.size b.vaddr

module _ (rb : RbTree) where
  -- `mgpu_bo_free`: off the device's list, out of the offsets and of the handles, its memory given
  -- back, and freed. No code sets the scatter-gather table or the pages.
  pub bo_free : Bo → Run (Unit {0})
  bo_free b g = some (
    tt,
    record {
      bos = drop_bo b.addr g.bos;
      idr = idr_remove b.handle g.idr;
      space = free_mmap_offset rb b.addr g.space;
      calls = if b.vaddr == 0 then g.calls else g.calls ++ free_call b ∷ [];
    },
  )

  -- `mgpu_bo_put` of a pointer that is not NULL: `kref_put`.
  pub bo_put : ℕ → Run (Unit {0})
  unfolding bo_free
  bo_put p = do
    b ← deref p
    if b.refcount == 1 then bo_free b else store (record b { refcount = b.refcount - 1 })

  destroy_found : Option ℕ → Run Status
  destroy_found none = give (err einval)
  destroy_found (some p) = do bo_put p; bo_put p; give ok

  -- `mgpu_bo_destroy`
  pub bo_destroy : ℕ → ℕ → Run Status
  unfolding destroy_found
  bo_destroy mdev handle = do bo ← bo_lookup mdev handle; destroy_found bo

  mmap_found : ℕ → Option ℕ → Run (Status × Option ℕ)
  mmap_found filp none = give (err einval, none)
  mmap_found filp (some p) = do
    b ← deref p
    store (record b { filp = owner filp b.filp })
    bo_put p
    give (ok, some b.mmap_offset)

  -- `mgpu_bo_mmap`: the offset goes to `args->offset`.
  pub bo_mmap : ℕ → ℕ → ℕ → Run (Status × Option ℕ)
  unfolding mmap_found
  bo_mmap mdev handle filp = do bo ← bo_lookup mdev handle; mmap_found filp bo

  map_checked : ℕ → ℕ → Status → ℕ → Bo → Run (Status × Option ℕ)
  map_checked filp size remapped p b =
      if foreign filp b.filp
      then (do bo_put p; give (err eperm, none))
      else if ltb b.size size
      then (do bo_put p; give (err einval, none))
      else elim remapped [ ok ↦ give (ok, some p) | err e ↦ do bo_put p; give (err e, none) ]

  map_found : ℕ → ℕ → Status → Option ℕ → Run (Status × Option ℕ)
  unfolding map_checked
  map_found filp size remapped none = give (err einval, none)
  map_found filp size remapped (some p) = do b ← deref p; map_checked filp size remapped p b

  -- `mgpu_mmap` of `size` bytes at `offset`, with the answer of `remap_pfn_range`: the status and
  -- `vma->vm_private_data`.
  pub mmap : ℕ → ℕ → ℕ → Status → Run (Status × Option ℕ)
  unfolding map_found
  mmap filp offset size remapped = do
    bo ← bo_lookup_by_offset offset
    map_found filp size remapped bo

  -- `mgpu_bo_vm_open` and `mgpu_bo_vm_close`
  pub vm_open : Option ℕ → Run (Unit {0})
  vm_open none = give tt
  vm_open (some p) = bo_get p

  pub vm_close : Option ℕ → Run (Unit {0})
  vm_close none = give tt
  vm_close (some p) = bo_put p
