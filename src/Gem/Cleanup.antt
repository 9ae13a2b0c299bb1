-- ===== src/Gem/Cleanup.antt =====
-- Access of the CPU to the objects, and `mgpu_gem_cleanup`.
use package.amdhardware_kernel.Common.{
  ℕ, zero, suc, ◌-◌, ◌≤◌, ◌<◌, ◌≡◌, refl, Bool, true, false, not, ◌&&◌, Option, none, some, List,
  [], ◌∷◌, ◌++◌, arith, ◌==◌, if◌then◌else◌,
}
use package.amdhardware_kernel.Bus.{Status, ok}
use package.amdhardware_kernel.Gem.Offsets.{RbTree, leaf}
use package.amdhardware_kernel.Gem.{
  Bo, DmaCall, sync_for_cpu, sync_for_device, Run, ◌>>=◌, ◌>>◌, give, deref, store, find_bo, put_bo,
}
use package.amdhardware_kernel.Gem.References.{with_refs, live_after}
use package.amdhardware_kernel.Gem.Locking.{
  LockedGem, Step, returned, faulted, waits, mutex_lock, mutex_unlock, member, list_del, on_gem,
  bo_put_at, bo_put_at-last, bo_put_at-shared,
}
use package.amdhardware_kernel.Gem.Locking

-- `mgpu_bo_vmap` of a pointer or NULL; `mgpu_bo_vunmap` does nothing.
unfoldable pub bo_vmap : Option ℕ → Run (Option ℕ)
bo_vmap none = give none
bo_vmap (some p) = do b ← deref p; give (some b.vaddr)

abbrev call : DmaCall → Run (Unit {0})
call c g = some (tt, record g { calls = g.calls ++ c ∷ [] })

-- `mgpu_bo_cpu_prep`
unfoldable pub bo_cpu_prep : ℕ → Bool → Run Status
bo_cpu_prep p write = do
  b ← deref p
  if not b.cached
      then give ok
      else if write
      then give ok
      else (do call (sync_for_cpu b.dma_addr b.size); give ok)

-- `mgpu_bo_cpu_fini`
unfoldable pub bo_cpu_fini : ℕ → Bool → Run Status
bo_cpu_fini p write = do
  b ← deref p
  if not b.cached
      then give ok
      else if not write
      then give ok
      else do call (sync_for_device b.dma_addr b.size); store (record b { dirty = true }); give ok

-- `list_for_each_entry_safe` over `mdev->bo_list`: the addresses of the device's objects that no
-- one has taken off the list.
unfoldable pub bo_list : ℕ → List ℕ → List Bo → List ℕ
bo_list mdev poisoned [] = []
bo_list mdev poisoned (b ∷ bs) =
    let rest = bo_list mdev poisoned bs in
    if b.mdev == mdev && not (member b.addr poisoned) then b.addr ∷ rest else rest

-- An object on the list has not been unlinked.
first-linked :
    (mdev : ℕ) (poisoned : List ℕ) (bs : List Bo) (p : ℕ) (rest : List ℕ)
    → bo_list mdev poisoned bs ≡ p ∷ rest
    → member p poisoned ≡ false
unfolding bo_list
first-linked mdev poisoned [] p rest e = absurd (cc e)
first-linked mdev poisoned (b ∷ bs) p rest e =
    ground (arith, e, first-linked mdev poisoned bs p rest)

-- The tree of the mmap offsets and the handles are emptied.
abbrev clean_up_maps : Run (Unit {0})
clean_up_maps g = some (tt, record g { space = record g.space { root = leaf }; idr = [] })

module _ (rb : RbTree) where
  -- `while (kref_read(&bo->refcount) > 0) mgpu_bo_put(bo);` in at most as many rounds as the first
  -- argument.
  unfoldable pub force_free : ℕ → ℕ → Step
  force_free zero p w = returned w
  force_free (suc rounds) p w = elim (find_bo p w.gem.bos) [
    | none ↦ faulted
    | some b ↦ elim (b.refcount == 0) [
      | true ↦ returned w
      | false ↦ Locking.◌>>◌ (bo_put_at rb p) (force_free rounds p) w
    ]
  ]

  unfoldable pub free_all : ℕ → List ℕ → Step
  free_all rounds [] w = returned w
  free_all rounds (p ∷ ps) w =
      Locking.◌>>◌ (Locking.◌>>◌ (list_del p) (force_free rounds p)) (free_all rounds ps) w

  -- `mgpu_gem_cleanup`
  unfoldable pub gem_cleanup : ℕ → ℕ → Step
  unfolding free_all
  gem_cleanup rounds mdev w =
      let all = free_all rounds (bo_list mdev w.poisoned w.gem.bos) in
      Locking.◌>>◌ (Locking.◌>>◌ (Locking.◌>>◌ mutex_lock all) mutex_unlock) (on_gem clean_up_maps)
        w

  -- With at least as many rounds as references, under the lock.
  force_free-waits :
      (rounds n : ℕ) (w : LockedGem) (b : Bo)
      → b.refcount ≡ suc n
      → n < rounds
      → find_bo b.addr w.gem.bos ≡ some b
      → w.bo_lock ≡ true
      → force_free rounds b.addr w ≡ waits
  unfolding force_free
  force_free-waits zero n w b e lt live lock = absurd (omega arith)
  force_free-waits (suc rounds) zero w b e lt live lock =
      let used : (b.refcount == 0) ≡ false = ground (arith, e) in
      let put = bo_put_at-last rb w b live (ground (arith, e)) lock in
      rw (force_free, live, used, Locking.◌>>◌, put) refl
  force_free-waits (suc rounds) (suc n) w b e lt live lock =
      let used : (b.refcount == 0) ≡ false = ground (arith, e) in
      let put = bo_put_at-shared rb w b live (ground (arith, e)) in
      let less = with_refs b (b.refcount - 1) in
      rw (force_free, live, used, Locking.◌>>◌, put)
        (force_free-waits rounds n (record w { gem = record w.gem { bos = put_bo less w.gem.bos } })
          less (omega arith) (omega arith) (live_after w.gem b (b.refcount - 1) live) lock)

  -- mgpu_gem_cleanup of a device that still has a buffer object, called without bo_lock, with at
  -- least as many rounds of its loop as the object added last has references, and with that object
  -- live and referenced, does not return: the put that takes the last reference away comes to
  -- mgpu_bo_free, which waits for the bo_lock that mgpu_gem_cleanup holds.
  pub gem_cleanup-waits :
      (rounds mdev : ℕ) (w : LockedGem) (b : Bo) (rest : List ℕ)
      → w.bo_lock ≡ false
      → bo_list mdev w.poisoned w.gem.bos ≡ b.addr ∷ rest
      → 0 < b.refcount
      → b.refcount ≤ rounds
      → find_bo b.addr w.gem.bos ≡ some b
      → gem_cleanup rounds mdev w ≡ waits
  unfolding gem_cleanup free_all
  gem_cleanup-waits rounds mdev w b rest free listed pos lt live =
      let linked = first-linked mdev w.poisoned w.gem.bos b.addr rest listed in
      let stuck =
        force_free-waits rounds (b.refcount - 1)
          (record w { bo_lock = true; poisoned = b.addr ∷ w.poisoned }) b (omega arith)
          (omega arith) live refl in
      rw (gem_cleanup, Locking.◌>>◌, mutex_lock, free, listed, free_all, list_del, linked, stuck)
        refl

  -- Without one it returns, and leaves no offsets and no handles.
  pub gem_cleanup-empty :
      (rounds mdev : ℕ) (w : LockedGem)
      → w.bo_lock ≡ false
      → bo_list mdev w.poisoned w.gem.bos ≡ []
      → gem_cleanup rounds mdev w
        ≡ returned (record w {
          gem = record w.gem { space = record w.gem.space { root = leaf }; idr = [] };
          bo_lock = false;
        })
  unfolding gem_cleanup free_all
  gem_cleanup-empty rounds mdev w free none_left =
      rw (gem_cleanup, Locking.◌>>◌, mutex_lock, free, none_left, free_all) refl
