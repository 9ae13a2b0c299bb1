-- ===== src/Gem/Locking.antt =====
-- `bo_lock` and the list nodes of the buffer objects, which `mgpu_bo_free` takes and unlinks: the put of
-- an object by a caller that may hold the lock, or may have unlinked the object before.
use package.amdhardware_kernel.Common.{
  ℕ, ◌-◌, ◌≡◌, refl, Bool, true, false, ◌||◌, none, some, List, [], ◌∷◌, arith, ◌==◌, if◌then◌else◌,
}
use package.amdhardware_kernel.Gem.Offsets.{RbTree}
use package.amdhardware_kernel.Gem.{Bo, Gem, Run, store, find_bo, put_bo, bo_free, bo_put}
use package.amdhardware_kernel.Gem.References.{with_refs, bo_put-last}

-- `bo_lock` says whether the calling thread holds the lock of that name, and `poisoned` has the
-- addresses of the objects whose node `list_del` has unlinked.
pub record LockedGem : Type 0 where
  pub gem : Gem
  pub bo_lock : Bool
  pub poisoned : List ℕ

-- `waits` is a thread that waits for a lock that it holds itself.
pub data Outcome : Type 0 where
  returned : LockedGem → Outcome
  faulted : Outcome
  waits : Outcome

abbrev pub Step : Type 0
Step = LockedGem → Outcome

infixl 5 ◌>>◌
abbrev pub ◌>>◌ : Step → Step → Step
◌>>◌ first second w = elim (first w) [ returned w' ↦ second w' | faulted ↦ faulted | waits ↦ waits ]

-- `mutex_lock(&mdev->bo_lock)` and `mutex_unlock(&mdev->bo_lock)`
abbrev pub mutex_lock : Step
mutex_lock w = elim w.bo_lock [ true ↦ waits | false ↦ returned (record w { bo_lock = true }) ]

abbrev pub mutex_unlock : Step
mutex_unlock w = returned (record w { bo_lock = false })

unfoldable pub member : ℕ → List ℕ → Bool
member p [] = false
member p (q ∷ qs) = p == q || member p qs

-- `list_del`, which leaves poisoned links, and is a fault on them.
abbrev pub list_del : ℕ → Step
list_del p w = elim (member p w.poisoned) [
  | true ↦ faulted
  | false ↦ returned (record w { poisoned = p ∷ w.poisoned })
]

-- What touches neither the lock nor the nodes.
abbrev pub on_gem : Run (Unit {0}) → Step
on_gem run w = elim (run w.gem) [
  | none ↦ faulted
  | some (done, g) ↦ returned (record w { gem = g })
]

module _ (rb : RbTree) where
  -- `mgpu_bo_free`
  unfoldable pub bo_free_at : Bo → Step
  bo_free_at b = do mutex_lock; list_del b.addr; mutex_unlock; on_gem (bo_free rb b)

  unfoldable bo_put_found : Bo → Step
  unfolding bo_free_at
  bo_put_found b =
      if b.refcount == 1
      then bo_free_at b
      else on_gem (store (record b { refcount = b.refcount - 1 }))

  -- `mgpu_bo_put` of a pointer that is not NULL
  unfoldable pub bo_put_at : ℕ → Step
  unfolding bo_put_found
  bo_put_at p w = elim (find_bo p w.gem.bos) [ none ↦ faulted | some b ↦ bo_put_found b w ]

  -- A last put waits for ever if the caller holds the lock.
  pub bo_put_at-last :
      (w : LockedGem) (b : Bo)
      → find_bo b.addr w.gem.bos ≡ some b
      → (b.refcount == 1) ≡ true
      → w.bo_lock ≡ true
      → bo_put_at b.addr w ≡ waits
  unfolding bo_put_at bo_put_found bo_free_at
  bo_put_at-last w b live last lock =
      rw (bo_put_at, live, bo_put_found, last, bo_free_at, ◌>>◌, mutex_lock, lock) refl

  -- Another put takes a reference away.
  pub bo_put_at-shared :
      (w : LockedGem) (b : Bo)
      → find_bo b.addr w.gem.bos ≡ some b
      → (b.refcount == 1) ≡ false
      → bo_put_at b.addr w
        ≡ returned (record w {
          gem = record w.gem { bos = put_bo (with_refs b (b.refcount - 1)) w.gem.bos };
        })
  unfolding bo_put_at bo_put_found
  bo_put_at-shared w b live many = rw (bo_put_at, live, bo_put_found, many) refl

  -- A last put of an object that is on its list, by a caller without the lock, is `bo_put`, and
  -- unlinks the object.
  pub bo_put_at-linked :
      (w : LockedGem) (b : Bo)
      → find_bo b.addr w.gem.bos ≡ some b
      → (b.refcount == 1) ≡ true
      → w.bo_lock ≡ false
      → member b.addr w.poisoned ≡ false
      → bo_put_at b.addr w
        ≡ on_gem (bo_put rb b.addr) (record w { bo_lock = false; poisoned = b.addr ∷ w.poisoned })
  unfolding bo_put_at bo_put_found bo_free_at
  bo_put_at-linked w b live last free linked =
      let put = bo_put-last rb w.gem b live (ground (arith, last)) in
      rw
        (
          bo_put_at, live, bo_put_found, last, bo_free_at, ◌>>◌, mutex_lock, free, list_del, linked,
          on_gem, put,
        )
        refl
