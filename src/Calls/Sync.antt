-- ===== src/Calls/Sync.antt =====
-- `mgpu_create_sync_object` of kernel/drivers/gpu/mgpu/mgpu_uapi.c: a page of coherent memory for fences.
use package.amdhardware_kernel.Common.{
  page_size, ℕ, ◌+◌, ◌^◌, ◌<◌, ◌≡◌, ◌≢◌, refl, inl, ◌⊎◌, Option, none, some, arith, ◌==◌,
  if◌then◌else◌, u32,
}
use package.amdhardware_kernel.Bus.{Errno, Status, ok, err}
use package.amdhardware_kernel.Gem.Offsets.{RbTree}
use package.amdhardware_kernel.Gem.Offsets.Alloc.{Balances, IsSpace}
use package.amdhardware_kernel.Gem.{
  Bo, Gem, Run, ◌>>=◌, ◌>>◌, give, find_bo, put_bo, bo_lookup, bo_put, bo_flags_coherent,
}
use package.amdhardware_kernel.Gem.Memory.{
  Created, bo_create, granted, new_bo, bo_create-granted, granted-Holds,
}
use package.amdhardware_kernel.Gem.References.{with_refs, bo_lookup-Holds, live_after, bo_put-taken}
use package.amdhardware_kernel.Gem.Cleanup.{bo_vmap}

-- What the call gives: its status, the handle and the address, and the memory that it clears.
pub record SyncObject : Type 0 where
  pub status : Status
  pub args : Option (ℕ × ℕ)
  pub cleared : Option ℕ

-- `if (vaddr) memset(vaddr, 0, PAGE_SIZE)`
pub cleared_page : Option ℕ → Option ℕ
cleared_page none = none
cleared_page (some vaddr) = if vaddr == 0 then none else some vaddr

module _ (rb : RbTree) where
  unfoldable pub clear_fence : Option ℕ → Run (Option ℕ)
  unfolding bo_vmap cleared_page
  clear_fence none = give none
  clear_fence (some fence_bo) = do
    vaddr ← bo_vmap (some fence_bo)
    bo_put rb fence_bo
    give (cleared_page vaddr)

  unfoldable pub sync_object_made : ℕ → Status × Option Created → Run SyncObject
  unfolding clear_fence
  sync_object_made mdev (ok, some made) = do
    fence_bo ← bo_lookup mdev made.handle
    cleared ← clear_fence fence_bo
    give (record { status = ok; args = some (made.handle, made.gpu_addr); cleared = cleared })
  sync_object_made mdev (ok, none) = give (record { status = ok; args = none; cleared = none })
  sync_object_made mdev (err e, made) =
      give (record { status = err e; args = none; cleared = none })

  -- `mgpu_create_sync_object`, with the answers that `mgpu_bo_create` gets.
  unfoldable pub create_sync_object : ℕ → Option ℕ → Option (ℕ × ℕ) → ℕ ⊎ Errno → Run SyncObject
  unfolding sync_object_made
  create_sync_object mdev object memory handle g =
      let (made, g') = bo_create rb mdev page_size bo_flags_coherent object memory handle g in
      sync_object_made mdev made g'

  clear_fence-taken :
      (g : Gem) (b : Bo)
      → find_bo b.addr g.bos ≡ some b
      → b.refcount ≢ 0
      → clear_fence (some b.addr) (record g { bos = put_bo (with_refs b (b.refcount + 1)) g.bos })
        ≡ some (cleared_page (some b.vaddr), g)
  unfolding clear_fence bo_vmap
  clear_fence-taken g b live used =
      rw
        (
          clear_fence,
          ◌>>=◌,
          live_after g b (b.refcount + 1) live,
          ◌>>◌,
          bo_put-taken rb g b live used,
        )
        refl

  -- When the object, its memory and a handle are granted, and no live object stands at its address,
  -- mgpu_create_sync_object leaves what mgpu_bo_create of a coherent page leaves, with one reference,
  -- gives its handle and address, and has cleared its memory.
  pub create_sync_object-granted :
      (mdev addr : ℕ) (m : ℕ × ℕ) (h : ℕ) (g : Gem)
      → Balances rb
      → IsSpace g.space
      → g.space.counter + rb.align page_size < 2 ^ 64
      → find_bo addr g.bos ≡ none
      → create_sync_object mdev (some addr) (some m) (inl h) g
        ≡ some (
          record { status = ok; args = some (h, u32 m.1); cleared = cleared_page (some m.0) },
          granted rb mdev page_size bo_flags_coherent addr m h g,
        )
  unfolding create_sync_object sync_object_made
  create_sync_object-granted mdev addr m h g bal v room new =
      let b = new_bo mdev (rb.align page_size) bo_flags_coherent addr m h g.space.counter in
      let made = granted rb mdev page_size bo_flags_coherent addr m h g in
      let held = granted-Holds rb mdev page_size bo_flags_coherent addr m h g new in
      rw
        (
          create_sync_object,
          bo_create-granted rb mdev page_size bo_flags_coherent addr m h g bal v (omega arith)
              (omega arith) room,
          sync_object_made,
          ◌>>=◌,
          bo_lookup-Holds made mdev h b held,
          clear_fence-taken made b held.live (omega arith),
        )
        refl
