-- ===== src/Gem/Mapping.antt =====
-- Who may map an object, and the references that mappings hold.
use package.amdhardware_kernel.Common.{
  ℕ, ◌+◌, ◌≡◌, refl, sym, ◌≢◌, none, some, arith, ltb, if◌then◌else◌,
}
use package.amdhardware_kernel.Bus.{eperm, einval, Status, ok, err}
use package.amdhardware_kernel.Gem.Offsets.{RbTree, lookup_offset}
use package.amdhardware_kernel.Gem.{
  Bo, Gem, find_bo, put_bo, deref, store, bo_get, bo_lookup_by_offset, owner, looked_up_entry,
  bo_put, bo_mmap, mmap_found, mmap, map_found, map_checked, foreign, ◌>>=◌, ◌>>◌,
}
use package.amdhardware_kernel.Gem.References.{
  find-put_bo, put-put_bo, with_refs, Holds, bo_lookup-Holds, bo_put-taken, live_after,
}

pub by_offset-live :
    (g : Gem) (offset start size : ℕ) (b : Bo)
    → lookup_offset offset g.space.root ≡ some (record { bo = b.addr; offset = start; size = size })
    → find_bo b.addr g.bos ≡ some b
    → bo_lookup_by_offset offset g
      ≡ some (some b.addr, record g { bos = put_bo (with_refs b (b.refcount + 1)) g.bos })
unfolding bo_lookup_by_offset looked_up_entry bo_get
by_offset-live g offset start size b found live =
    rw (found, looked_up_entry, ◌>>◌, bo_get, ◌>>=◌, deref, live) refl

-- What `mgpu_mmap` answers for an object it found.
pub mmap_answer : ℕ → ℕ → Status → Bo → Status
mmap_answer filp size remapped b =
    if foreign filp b.filp then err eperm else if ltb b.size size then err einval else remapped

map_checked_lem :
    (rb : RbTree) (g t : Gem) (filp size : ℕ) (remapped : Status) (b : Bo)
    → bo_put rb b.addr t ≡ some (tt, g)
    → map_checked rb filp size remapped b.addr b t ≡ (elim (mmap_answer filp size remapped b) [
      | ok ↦ some ((ok, some b.addr), t)
      | err code ↦ some ((err code, none), g)
    ])
unfolding map_checked mmap_answer
map_checked_lem rb g t filp size ok b put = ground (arith, put)
map_checked_lem rb g t filp size (err code) b put = ground (arith, put)

-- A mapping holds one reference of the object at its offset, and a refused one leaves every count.
pub mmap_lem :
    (rb : RbTree) (g : Gem) (filp offset size : ℕ) (remapped : Status) (start n : ℕ) (b : Bo)
    → lookup_offset offset g.space.root ≡ some (record { bo = b.addr; offset = start; size = n })
    → find_bo b.addr g.bos ≡ some b
    → b.refcount ≢ 0
    → mmap rb filp offset size remapped g ≡ (elim (mmap_answer filp size remapped b) [
      | ok ↦
          some ((ok, some b.addr), record g { bos = put_bo (with_refs b (b.refcount + 1)) g.bos })
      | err code ↦ some ((err code, none), g)
    ])
unfolding mmap map_found mmap_answer
mmap_lem rb g filp offset size remapped start n b found live used =
    rw
      (
        mmap,
        ◌>>=◌,
        by_offset-live g offset start n b found live,
        map_found,
        deref,
        live_after g b (b.refcount + 1) live,
      )
      (map_checked_lem rb g (record g { bos = put_bo (with_refs b (b.refcount + 1)) g.bos }) filp
        size remapped (with_refs b (b.refcount + 1)) (bo_put-taken rb g b live used))

claimed_back :
    (rb : RbTree) (g : Gem) (b c : Bo)
    → find_bo b.addr g.bos ≡ some b
    → c.addr ≡ b.addr
    → c.refcount ≢ 0
    → bo_put rb b.addr (record g { bos = put_bo (with_refs c (c.refcount + 1)) g.bos })
      ≡ some (tt, record g { bos = put_bo c g.bos })
claimed_back rb g b c live same used =
    let g' = record g { bos = put_bo c g.bos } in
    let there : find_bo c.addr (put_bo c g.bos) ≡ some c =
      ground (arith, find-put_bo c c.addr g.bos b (rw same live)) in
    rw (sym (put-put_bo c (with_refs c (c.refcount + 1)) g.bos refl), sym same)
      (bo_put-taken rb g' c there used)

-- Asking for the offset of an object answers it and leaves every count; the first file that asks
-- becomes its owner.
pub bo_mmap-Holds :
    (rb : RbTree) (g : Gem) (mdev handle filp : ℕ) (b : Bo)
    → Holds g mdev handle b
    → b.refcount ≢ 0
    → bo_mmap rb mdev handle filp g
      ≡ some (
        (ok, some b.mmap_offset),
        record g { bos = put_bo (record b { filp = owner filp b.filp }) g.bos },
      )
unfolding bo_mmap mmap_found
bo_mmap-Holds rb g mdev handle filp b v used =
    let c : Bo = record b { filp = owner filp b.filp } in
    rw
      (
        bo_mmap,
        ◌>>=◌,
        bo_lookup-Holds g mdev handle b v,
        mmap_found,
        deref,
        live_after g b (b.refcount + 1) v.live,
        ◌>>◌,
        store,
        put-put_bo (with_refs b (b.refcount + 1)) (with_refs c (c.refcount + 1)) g.bos refl,
        claimed_back rb g b c v.live refl used,
      )
      refl
