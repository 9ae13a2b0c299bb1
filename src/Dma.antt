-- ===== src/Dma.antt =====
-- kernel/drivers/gpu/mgpu/mgpu_dma.c: the copies by a command in the ring, and the calls of the DMA
-- interface. The ring functions of the file are those of mgpu_cmdq.c (Ring). The direction of a
-- synchronisation and the attributes are only passed on, and left out.
mod Tests
use package.amdhardware_kernel.Common.{
  ℕ, ◌+◌, ◌*◌, ◌^◌, ◌<◌, ◌≡◌, refl, ap, Bool, true, false, not, Option, none, some, List, [], ◌∷◌,
  ◌++◌, arith, ◌==◌, if◌then◌else◌, u32, u64,
}
use package.amdhardware_kernel.Bus.{
  Trace, Hw, Io, ◌>>=◌, ◌>>◌, pure, Errno, enodev, Status, ok, err,
}
use package.amdhardware_kernel.Bus.Regs.{cmd_dma}
use package.amdhardware_kernel.Core.{core_wait_idle}
use package.amdhardware_kernel.Gem.{DmaCall, alloc_attrs, free_attrs, sync_for_cpu, sync_for_device}
use package.amdhardware_kernel.Ring.{Ring, ring_wait_space, ring_write, ring_kick}
use package.amdhardware_kernel.Ring.Submit.{Outcome}
use package.amdhardware_kernel.Ring.Window.{IsRing, contents, pending, ring_write-contents}

-- `mgpu_dma_init`, with what `dma_set_mask_and_coherent` answers for 64 and for 32 bits.
pub dma_init : Status → Status → Status
dma_init ok mask_32 = ok
dma_init (err e) mask_32 = mask_32

-- `mgpu_dma_alloc`, with the memory and its address where `dma_alloc_attrs` gives it.
pub dma_alloc : ℕ → Option (ℕ × ℕ) → List DmaCall → Option (ℕ × ℕ) × List DmaCall
dma_alloc size memory calls = (memory, calls ++ alloc_attrs size ∷ [])

-- `mgpu_dma_free`
pub dma_free : ℕ → ℕ → List DmaCall → List DmaCall
dma_free size vaddr calls = if vaddr == 0 then calls else calls ++ free_attrs size vaddr ∷ []

pub dma_sync_for_cpu : ℕ → ℕ → List DmaCall → List DmaCall
dma_sync_for_cpu dma_addr size calls = calls ++ sync_for_cpu dma_addr size ∷ []

pub dma_sync_for_device : ℕ → ℕ → List DmaCall → List DmaCall
dma_sync_for_device dma_addr size calls = calls ++ sync_for_device dma_addr size ∷ []

-- `struct mgpu_cmd_dma` as dwords: opcode in bits 0-7, size in dwords in bits 8-15.
abbrev pub dma_cmd : ℕ → ℕ → ℕ → List ℕ
dma_cmd src dst size = (cmd_dma + 5 * 2 ^ 8) ∷ u32 src ∷ u32 dst ∷ size ∷ 0 ∷ []

module _ (hw : Hw) (space : Ring → Io ℕ) where
  -- After the wait for space; `polls` is the bound of `mgpu_core_wait_idle`.
  unfoldable pub dma_copied : ℕ → Bool → List ℕ → Ring → Status → Io Outcome
  dma_copied polls wait cmd ring (err e) = pure (err e, some ring)
  dma_copied polls wait cmd ring ok = do
    ring' ← ring_kick (ring_write ring cmd)
    if not wait
        then pure (ok, some ring')
        else do ret ← core_wait_idle hw polls; pure (ret, some ring')

  -- `mgpu_dma_copy`
  unfoldable pub dma_copy : ℕ → ℕ → ℕ → ℕ → Bool → Option Ring → Io Outcome
  unfolding dma_copied
  dma_copy polls src dst size wait none = pure (err enodev, none)
  dma_copy polls src dst size wait (some ring) = do
    ret ← ring_wait_space space ring 5
    dma_copied polls wait (dma_cmd src dst size) ring ret

  dma_copied-ring :
      (polls : ℕ) (wait : Bool) (cmd : List ℕ) (ring : Ring) (h : Trace)
      → (dma_copied polls wait cmd ring ok h).0.1
        ≡ some (record (ring_write ring cmd) { submitted_cmds = u64 (ring.submitted_cmds + 1) })
  unfolding dma_copied ring_kick ring_write
  dma_copied-ring polls true cmd ring h = refl
  dma_copied-ring polls false cmd ring h = refl

  -- On a ring of 2^k dwords with room for five more, when the wait for space ends well, the copy puts
  -- its command behind what the GPU has not read, and the ring stays well formed, whether or not the
  -- device is idle in time.
  pub dma_copy-contents :
      (k head polls src dst size : ℕ) (wait : Bool) (ring : Ring) (h : Trace)
      → IsRing k ring
      → head < 2 ^ k
      → pending k head ring + 5 < 2 ^ k
      → (ring_wait_space space ring 5 h).0 ≡ ok
      → let after = record (ring_write ring (dma_cmd src dst size)) {
        submitted_cmds = u64 (ring.submitted_cmds + 1);
      } in
        ((dma_copy polls src dst size wait (some ring) h).0.1 ≡ some after)
        × (contents k head after ≡ contents k head ring ++ dma_cmd src dst size)
  unfolding dma_copy
  dma_copy-contents k head polls src dst size wait ring h v lt room granted = (
    rw (dma_copy, ◌>>=◌, granted)
        (dma_copied-ring polls wait (dma_cmd src dst size) ring (ring_wait_space space ring 5 h).1),
    (ring_write-contents k head ring (dma_cmd src dst size) v lt room).0,
  )

  -- A wait for space that ends badly leaves the ring as it was.
  pub dma_copy-full :
      (polls src dst size : ℕ) (wait : Bool) (ring : Ring) (h : Trace) (e : Errno)
      → (ring_wait_space space ring 5 h).0 ≡ err e
      → (dma_copy polls src dst size wait (some ring) h).0 ≡ (err e, some ring)
  unfolding dma_copy dma_copied
  dma_copy-full polls src dst size wait ring h e full = rw (dma_copy, ◌>>=◌, full, dma_copied) refl
