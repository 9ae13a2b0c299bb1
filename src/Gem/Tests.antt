-- ===== src/Gem/Tests.antt =====
-- Buffer objects on a concrete device: one object of a page, with the handle 1.
use package.amdhardware_kernel.Gem.{
  vm_open, Bo, Gem, put_bo, sync_for_cpu, sync_for_device, alloc_coherent, free_attrs, find_bo,
  drop_bo, idr_find, idr_remove, bo_destroy, owner, bo_flags_cached,
}
use package.amdhardware_kernel.Common.{ℕ, ◌≡◌, refl, inl, true, false, none, some, [], ◌∷◌, arith}
use package.amdhardware_kernel.Bus.{ok}
use package.amdhardware_kernel.Gem.References.{Holds, freed}
use package.amdhardware_kernel.Gem.Cleanup.{
  bo_vmap, bo_cpu_prep, bo_cpu_fini, bo_list, force_free, gem_cleanup, gem_cleanup-waits,
}
use package.amdhardware_kernel.Gem.Locking.{LockedGem, returned, waits, member}
use package.amdhardware_kernel.Gem.Offsets.{leaf}
use package.amdhardware_kernel.Gem.Memory.{new_bo, granted, bo_create, bo_create-destroy}
use package.amdhardware_kernel.Gem.Offsets.Tests.{plain, plain-Balances, pages, pages-IsSpace}

abbrev pub held : ℕ → Bo
held n = record {
  addr = 1;
  mdev = 7;
  vaddr = 5000;
  dma_addr = 8192;
  size = 4096;
  flags = bo_flags_cached;
  refcount = n;
  handle = 1;
  mmap_offset = 65536;
  filp = some 3;
  cached = true;
  dirty = false;
}

abbrev pub gem : ℕ → Gem
gem n = record { bos = held n ∷ []; idr = (1, 1) ∷ []; space = pages; calls = [] }

pub gem-Holds : (n : ℕ) → Holds (gem n) 7 1 (held n)
unfolding find_bo drop_bo idr_find
gem-Holds n = record { named = refl; live = refl; own = refl; once = refl; handled = refl }

live_held : (n : ℕ) → find_bo 1 (gem n).bos ≡ some (held n)
unfolding find_bo
live_held n = refl

free_place : find_bo 2 (gem 1).bos ≡ none
unfolding find_bo
free_place = refl

abbrev fresh : Gem
fresh = granted plain 7 5000 0 2 (9000, 4096) 4 (gem 1)

abbrev fresh_bo : Bo
fresh_bo = new_bo 7 8192 0 2 (9000, 4096) 4 69632

bo_create-destroy_example :
    ((bo_create plain 7 5000 0 (some 2) (some (9000, 4096)) (inl 4) (gem 1)).1 ≡ fresh)
    × (bo_destroy plain 7 4 fresh ≡ some (ok, freed plain fresh_bo fresh))
    × ((freed plain fresh_bo fresh).bos ≡ (gem 1).bos)
    × ((freed plain fresh_bo fresh).idr ≡ idr_remove 4 (gem 1).idr)
    × ((freed plain fresh_bo fresh).calls ≡ alloc_coherent 8192 ∷ free_attrs 8192 9000 ∷ [])
bo_create-destroy_example =
    bo_create-destroy plain 7 5000 0 2 (9000, 4096) 4 (gem 1) plain-Balances pages-IsSpace
      (omega arith) (omega arith) (omega arith) free_place (omega arith)

first_owner : owner 9 none ≡ some 9
unfolding owner
first_owner = refl

opened : (n : ℕ) → vm_open plain none (gem n) ≡ some (tt, gem n)
unfolding vm_open
opened n = refl

abbrev open_gem : ℕ → LockedGem
open_gem n = record { gem = gem n; bo_lock = false; poisoned = [] }

gem_cleanup-waits_example : gem_cleanup plain 5 7 (open_gem 2) ≡ waits
unfolding bo_list member find_bo
gem_cleanup-waits_example =
    gem_cleanup-waits plain 5 7 (open_gem 2) (held 2) [] refl refl (omega arith) (omega arith) refl

cleaned :
    gem_cleanup plain 5 7 (open_gem 0)
    ≡ returned (record (open_gem 0) {
      gem = record (gem 0) { space = record pages { root = leaf }; idr = [] };
      poisoned = 1 ∷ [];
    })
unfolding gem_cleanup force_free bo_list member find_bo
cleaned = refl

other_device : bo_list 8 [] (gem 2).bos ≡ []
unfolding bo_list
other_device = refl

prepared :
    bo_cpu_prep 1 false (gem 1) ≡ some (ok, record (gem 1) { calls = sync_for_cpu 8192 4096 ∷ [] })
unfolding bo_cpu_prep find_bo
prepared = refl

finished :
    bo_cpu_fini 1 true (gem 1)
    ≡ some (
      ok,
      record {
        bos = record (held 1) { dirty = true } ∷ [];
        idr = (1, 1) ∷ [];
        space = pages;
        calls = sync_for_device 8192 4096 ∷ [];
      },
    )
unfolding bo_cpu_fini find_bo put_bo
finished = refl

mapped : bo_vmap (some 1) (gem 1) ≡ some (some 5000, gem 1)
unfolding bo_vmap find_bo
mapped = refl
