-- ===== src/Gem/Offsets/Tests.antt =====
-- A space with the offset of one object of a page, and what is allocated after it.
use package.amdhardware_kernel.Gem.Offsets.{
  free_mmap_offset, leaf, node, Entry, MmapSpace, RbTree, alloc_mmap_offset, lookup_offset, inorder,
  first_covering, lookup_offset-first_covering,
}
use package.amdhardware_kernel.Common.{
  ℕ, ◌+◌, ◌*◌, ◌/◌, ◌≤◌, ◌≡◌, refl, ◌&&◌, some, [], ◌∷◌, ◌++◌, arith, ltb, leb, if◌then◌else◌,
}
use package.amdhardware_kernel.Bus.{ok}
use package.amdhardware_kernel.Gem.Offsets.Alloc.{
  Balances, IsSpace, entry_at, alloc_mmap_offset_lem, lookup_offset-alloc,
}

-- A tree that is not rebalanced, and pages of 4 KB.
abbrev pub plain : RbTree
plain = record {
  insert_color = λ t. t;
  erase = λ bo t. leaf;
  align = λ x. (x + 4095) / 4096 * 4096;
}

plain_up : (x : ℕ) → x ≤ (x + 4095) / 4096 * 4096
plain_up x = omega arith

pub plain-Balances : Balances plain
plain-Balances = record { keeps = λ t. refl; up = plain_up }

abbrev pub page : Entry
page = entry_at 1 65536 4096

abbrev pub pages : MmapSpace
pages = record { root = node leaf page leaf; counter = 69632 }

pub pages-IsSpace : IsSpace pages
unfolding inorder
pages-IsSpace = (omega arith, omega arith, omega arith)

pub page_found :
    lookup_offset 66000 pages.root ≡ some (record { bo = 1; offset = 65536; size = 4096 })
unfolding lookup_offset
page_found = refl

lookup_offset-first_covering_example :
    lookup_offset 66000 pages.root ≡ first_covering 66000 (inorder pages.root)
lookup_offset-first_covering_example =
    lookup_offset-first_covering 66000 0 69632 pages.root pages-IsSpace (omega arith)

alloc_mmap_offset_lem_example :
    ((alloc_mmap_offset plain 2 8192 pages).0.0 ≡ ok)
    × ((alloc_mmap_offset plain 2 8192 pages).1 ≡ 69632)
    × (inorder (alloc_mmap_offset plain 2 8192 pages).0.1.root
        ≡ inorder pages.root ++ (entry_at 2 69632 8192 ∷ []))
    × IsSpace (alloc_mmap_offset plain 2 8192 pages).0.1
alloc_mmap_offset_lem_example =
    alloc_mmap_offset_lem plain 2 8192 pages plain-Balances pages-IsSpace (omega arith)
      (omega arith)

lookup_offset-alloc_example :
    lookup_offset 70000 (alloc_mmap_offset plain 2 8192 pages).0.1.root ≡ (
      if leb 69632 70000 && ltb 70000 (69632 + 8192)
      then some (entry_at 2 69632 8192)
      else lookup_offset 70000 pages.root)
lookup_offset-alloc_example =
    lookup_offset-alloc plain 2 8192 pages 70000 plain-Balances pages-IsSpace (omega arith)
      (omega arith)

freed_offset : (free_mmap_offset plain 1 pages).counter ≡ 69632
unfolding free_mmap_offset
freed_offset = refl
