-- ===== src/Gem/References.antt =====
-- Who holds an object, and what a destroyed handle leaves.
use package.amdhardware_kernel.Common.{
  ℕ, ◌+◌, ◌-◌, ◌≤◌, ◌≡◌, refl, ap, ◌∙◌, ◌≢◌, none, some, List, [], ◌∷◌, ◌++◌, arith, ◌==◌,
  if◌then◌else◌,
}
use package.amdhardware_kernel.Bus.{ok}
use package.amdhardware_kernel.Gem.Offsets.{RbTree, free_mmap_offset}
use package.amdhardware_kernel.Gem.{
  Bo, Gem, find_bo, put_bo, drop_bo, idr_find, idr_remove, bo_lookup, looked_up, bo_free, free_call,
  bo_put, bo_destroy, destroy_found, vm_close, ◌>>=◌, ◌>>◌,
}

pub find-put_bo :
    (c : Bo) (p : ℕ) (bs : List Bo) (b : Bo)
    → find_bo c.addr bs ≡ some b
    → find_bo p (put_bo c bs) ≡ (if c.addr == p then some c else find_bo p bs)
unfolding find_bo put_bo
find-put_bo c p [] b e = absurd (cc e)
find-put_bo c p (x ∷ bs) b e = ground (arith, find-put_bo c p bs b)

pub put-put_bo : (c d : Bo) (bs : List Bo) → c.addr ≡ d.addr → put_bo d (put_bo c bs) ≡ put_bo d bs
unfolding put_bo
put-put_bo c d [] e = refl
put-put_bo c d (x ∷ bs) e = ground (arith, put-put_bo c d bs e)

pub drop-put_bo : (c : Bo) (bs : List Bo) → drop_bo c.addr (put_bo c bs) ≡ drop_bo c.addr bs
unfolding put_bo drop_bo
drop-put_bo c [] = refl
drop-put_bo c (x ∷ bs) = ground (arith, drop-put_bo c bs)

pub idr_find-remove :
    (handle : ℕ) (idr : List (ℕ × ℕ)) → idr_find handle (idr_remove handle idr) ≡ none
unfolding idr_find idr_remove
idr_find-remove handle [] = refl
idr_find-remove handle ((h, p) ∷ idr) = ground (arith, idr_find-remove handle idr)

abbrev pub with_refs : Bo → ℕ → Bo
with_refs b n = record b { refcount = n }

-- The handle means the live object `b` of the device, whose address no other object has.
pub record Holds (g : Gem) (mdev handle : ℕ) (b : Bo) : Type 0 where
  pub named : idr_find handle g.idr ≡ some b.addr
  pub live : find_bo b.addr g.bos ≡ some b
  pub own : b.mdev ≡ mdev
  pub once : find_bo b.addr (drop_bo b.addr g.bos) ≡ none
  pub handled : b.handle ≡ handle

-- A lookup of a handle takes one more reference, and nothing else.
pub bo_lookup-Holds :
    (g : Gem) (mdev handle : ℕ) (b : Bo)
    → Holds g mdev handle b
    → bo_lookup mdev handle g
      ≡ some (some b.addr, record g { bos = put_bo (with_refs b (b.refcount + 1)) g.bos })
unfolding bo_lookup looked_up
bo_lookup-Holds g mdev handle b v = ground (arith, v.named, v.live, v.own)

-- A put of an object that others hold too takes one reference away.
pub bo_put-shared :
    (rb : RbTree) (g : Gem) (b : Bo)
    → find_bo b.addr g.bos ≡ some b
    → b.refcount ≢ 1
    → bo_put rb b.addr g ≡ some (tt, record g { bos = put_bo (with_refs b (b.refcount - 1)) g.bos })
unfolding bo_put
bo_put-shared rb g b live many = ground (arith, live)

-- A put of the last reference frees the object.
pub bo_put-last :
    (rb : RbTree) (g : Gem) (b : Bo)
    → find_bo b.addr g.bos ≡ some b
    → b.refcount ≡ 1
    → bo_put rb b.addr g ≡ bo_free rb b g
unfolding bo_put
bo_put-last rb g b live last = ground (arith, live)

pub live_after :
    (g : Gem) (b : Bo) (n : ℕ)
    → find_bo b.addr g.bos ≡ some b
    → find_bo b.addr (put_bo (with_refs b n) g.bos) ≡ some (with_refs b n)
live_after g b n live = ground (arith, find-put_bo (with_refs b n) b.addr g.bos b live)

pub put_bo_self : (b : Bo) (bs : List Bo) → find_bo b.addr bs ≡ some b → put_bo b bs ≡ bs
unfolding find_bo put_bo
put_bo_self b [] e = refl
put_bo_self b (x ∷ bs) e = ground (arith, put_bo_self b bs)

refs_back : (n : ℕ) → n + 1 - 1 ≡ n
refs_back n = omega arith

-- A reference taken and put leaves the state as it was.
pub bo_put-taken :
    (rb : RbTree) (g : Gem) (b : Bo)
    → find_bo b.addr g.bos ≡ some b
    → b.refcount ≢ 0
    → bo_put rb b.addr (record g { bos = put_bo (with_refs b (b.refcount + 1)) g.bos })
      ≡ some (tt, g)
bo_put-taken rb g b live used =
    let taken = record g { bos = put_bo (with_refs b (b.refcount + 1)) g.bos } in
    let step =
      bo_put-shared rb taken (with_refs b (b.refcount + 1)) (live_after g b (b.refcount + 1) live)
        (omega arith) in
    let back : put_bo (with_refs b (b.refcount + 1 - 1)) taken.bos ≡ g.bos =
      ap (λ n. put_bo (with_refs b n) taken.bos) (refs_back b.refcount)
      ∙ put-put_bo (with_refs b (b.refcount + 1)) b g.bos refl
      ∙ put_bo_self b g.bos live in
    step ∙ ap (λ bs. some (tt, record g { bos = bs })) back

-- A lookup and a put leave what `put_bo` of the object itself leaves.
pub destroy_puts :
    (rb : RbTree) (g : Gem) (mdev handle : ℕ) (b : Bo)
    → Holds g mdev handle b
    → b.refcount ≢ 0
    → bo_destroy rb mdev handle g
      ≡ (elim (bo_put rb b.addr g) [ none ↦ none | some (u, g') ↦ some (ok, g') ])
unfolding bo_destroy destroy_found
destroy_puts rb g mdev handle b v used =
    rw
      (
        bo_destroy,
        ◌>>=◌,
        bo_lookup-Holds g mdev handle b v,
        destroy_found,
        ◌>>◌,
        bo_put-taken rb g b v.live used,
      )
      refl

abbrev pub freed : RbTree → Bo → Gem → Gem
freed rb b g = record {
  bos = drop_bo b.addr g.bos;
  idr = idr_remove b.handle g.idr;
  space = free_mmap_offset rb b.addr g.space;
  calls = if b.vaddr == 0 then g.calls else g.calls ++ free_call b ∷ [];
}

-- An object with no other reference is freed by the destruction of its handle, after which its address
-- means no live object and a lookup of the handle finds none.
pub bo_destroy-last :
    (rb : RbTree) (g : Gem) (mdev handle : ℕ) (b : Bo)
    → Holds g mdev handle b
    → b.refcount ≡ 1
    → (bo_destroy rb mdev handle g ≡ some (ok, freed rb b g))
      × (find_bo b.addr (freed rb b g).bos ≡ none)
      × (bo_lookup mdev handle (freed rb b g) ≡ some (none, freed rb b g))
unfolding bo_free bo_lookup looked_up
bo_destroy-last rb g mdev handle b v last = (
  rw (destroy_puts rb g mdev handle b v (omega arith), bo_put-last rb g b v.live last) refl,
  v.once,
  rw (v.handled, idr_find-remove handle g.idr) refl,
)

-- The destruction of the handle of an object that others hold too takes one reference.
pub bo_destroy-shared :
    (rb : RbTree) (g : Gem) (mdev handle : ℕ) (b : Bo)
    → Holds g mdev handle b
    → 2 ≤ b.refcount
    → bo_destroy rb mdev handle g
      ≡ some (ok, record g { bos = put_bo (with_refs b (b.refcount - 1)) g.bos })
bo_destroy-shared rb g mdev handle b v many =
    rw (destroy_puts rb g mdev handle b v (omega arith), bo_put-shared rb g b v.live (omega arith))
      refl

Holds-shared :
    (g : Gem) (mdev handle : ℕ) (b : Bo) (n : ℕ)
    → Holds g mdev handle b
    → Holds (record g { bos = put_bo (with_refs b n) g.bos }) mdev handle (with_refs b n)
Holds-shared g mdev handle b n v = record {
  named = v.named;
  live = live_after g b n v.live;
  own = v.own;
  once = rw (drop-put_bo (with_refs b n) g.bos) v.once;
  handled = v.handled;
}

-- The close of a mapping of an object that is not live any more is a fault.
pub vm_close_dead :
    (rb : RbTree) (g : Gem) (p : ℕ) → find_bo p g.bos ≡ none → vm_close rb (some p) g ≡ none
unfolding vm_close bo_put
vm_close_dead rb g p dead = ground (arith, dead)

-- A handle that is destroyed twice while a mapping holds the object frees it under the mapping: the
-- close of the mapping is then a use of a freed object.
pub bo_destroy-twice :
    (rb : RbTree) (g : Gem) (mdev handle : ℕ) (b : Bo)
    → Holds g mdev handle b
    → b.refcount ≡ 2
    → (g₁ : Gem) × (g₂ : Gem) × (bo_destroy rb mdev handle g ≡ some (ok, g₁))
      × (bo_destroy rb mdev handle g₁ ≡ some (ok, g₂))
      × (vm_close rb (some b.addr) g₂ ≡ none)
bo_destroy-twice rb g mdev handle b v two =
    let c = with_refs b (b.refcount - 1) in
    let g₁ = record g { bos = put_bo c g.bos } in
    let once = Holds-shared g mdev handle b (b.refcount - 1) v in
    let last = bo_destroy-last rb g₁ mdev handle c once (omega arith) in
    (
      g₁,
      freed rb c g₁,
      bo_destroy-shared rb g mdev handle b v (omega arith),
      last.0,
      vm_close_dead rb (freed rb c g₁) b.addr last.1,
    )
