-- ===== src/Ring.antt =====
-- kernel/drivers/gpu/mgpu/mgpu_cmdq.c: the command ring. `vaddr` is the list of its dwords.
-- The file defines `mgpu_ring_space` twice, in bytes and in dwords; what waits for space takes the
-- version as an argument.
pub mod Create
pub mod Window
pub mod Fifo
pub mod Space
pub mod Overrun
pub mod Submit
pub mod Power
mod Tests
use package.amdhardware_kernel.Common.{
  ℕ, zero, suc, ◌+◌, ◌-◌, ◌*◌, ◌/◌, List, [], ◌∷◌, Bool, false, not, ◌||◌, Option, none, some, ltb,
  leb, if◌then◌else◌, u32, u64, sub32, sub64, bit_and, set, replicate,
}
use package.amdhardware_kernel.Bus.{
  sleep, Hw, Io, ◌>>=◌, ◌>>◌, pure, read, write, etimedout, Status, ok, err, unit_done,
}
use package.amdhardware_kernel.Bus.Regs.{
  reg_cmd_base, reg_cmd_size, reg_cmd_head, reg_cmd_tail, reg_doorbell, ring_size_min,
  ring_size_max,
}

pub record Ring : Type 0 where
  pub vaddr : List ℕ
  pub dma_addr : ℕ
  pub size : ℕ
  pub head : ℕ
  pub tail : ℕ
  pub queue_id : ℕ
  pub submitted_cmds : ℕ
  pub completed_cmds : ℕ
  -- used by the suspend, stop and interrupt functions, though the struct does not declare them
  pub enabled : Bool
  pub last_head : ℕ
  pub last_activity : ℕ

-- `is_power_of_2` and `roundup_pow_of_two` of the kernel.
pub record Pow2 : Type 0 where
  pub is_power_of_2 : ℕ → Bool
  pub roundup_pow_of_two : ℕ → ℕ

-- What the allocators answer: `kzalloc` succeeds or not, `dma_alloc_coherent` gives a bus address.
pub record Alloc : Type 0 where
  pub kzalloc : Bool
  pub dma_alloc : Option ℕ

-- The register of queue `q`, `reg + (q * 0x10)`.
abbrev pub queue_reg : ℕ → ℕ → ℕ
queue_reg reg q = reg + q * 0x10

-- The part of `mgpu_ring_create` from `dma_alloc_coherent` on, with its answer.
ring_setup : ℕ → ℕ → Option ℕ → Io (Option Ring)
ring_setup size queue_id none = pure none
ring_setup size queue_id (some dma_addr) = do
  write (queue_reg reg_cmd_base queue_id) (u32 dma_addr)
  write (queue_reg reg_cmd_size queue_id) (u32 size)
  write (queue_reg reg_cmd_head queue_id) 0
  write (queue_reg reg_cmd_tail queue_id) 0
  pure (
      some (record {
        vaddr = replicate (size / 4) 0;
        dma_addr = dma_addr;
        size = size;
        head = 0;
        tail = 0;
        queue_id = queue_id;
        submitted_cmds = 0;
        completed_cmds = 0;
        enabled = false;
        last_head = 0;
        last_activity = 0;
      }))

pub ring_create : Pow2 → Alloc → ℕ → ℕ → Io (Option Ring)
unfolding ring_setup
ring_create p a size queue_id =
    if ltb size ring_size_min || ltb ring_size_max size
    then pure none
    else if not a.kzalloc
    then pure none
    else ring_setup (if p.is_power_of_2 size then size else p.roundup_pow_of_two size) queue_id
        a.dma_alloc

pub ring_destroy : Option Ring → Io (Unit {0})
ring_destroy none = unit_done
ring_destroy (some ring) = do
  write (queue_reg reg_cmd_base ring.queue_id) 0
  write (queue_reg reg_cmd_size ring.queue_id) 0

module _ (hw : Hw) where
  -- The first definition of `mgpu_ring_space`: the size in bytes, less indices in dwords.
  pub ring_space_bytes : Ring → Io ℕ
  ring_space_bytes ring = do
    head ← read hw (queue_reg reg_cmd_head ring.queue_id)
    pure (
        if leb head ring.tail
        then u32 (sub64 (sub64 ring.size (ring.tail - head)) 1)
        else sub32 (head - ring.tail) 1)

  -- The second definition.
  pub ring_space_dwords : Ring → Io ℕ
  ring_space_dwords ring = do
    head ← read hw (queue_reg reg_cmd_head ring.queue_id)
    pure (
        if leb head ring.tail
        then u32 (sub64 (sub64 (ring.size / 4) (ring.tail - head)) 1)
        else sub32 (head - ring.tail) 1)

-- The loop of `mgpu_ring_wait_space` with `timeout` left.
unfoldable pub wait_space : (Ring → Io ℕ) → Ring → ℕ → ℕ → Io Status
wait_space space ring needed zero h =
    let (free, h') = space ring h in if ltb free needed then (err etimedout, h') else (ok, h')
wait_space space ring needed (suc timeout) h =
    let (free, h') = space ring h in
    let rest = wait_space space ring needed timeout (sleep 1 ∷ h') in
    if ltb free needed then rest else (ok, h')

unfoldable pub ring_wait_space : (Ring → Io ℕ) → Ring → ℕ → Io Status
ring_wait_space space ring needed = wait_space space ring needed 1000

-- The loop of `mgpu_ring_write`: the memory and `tail` after it.
pub write_dwords : ℕ → List ℕ → ℕ → List ℕ → List ℕ × ℕ
write_dwords ring_size_dw ring_ptr tail [] = (ring_ptr, tail)
write_dwords ring_size_dw ring_ptr tail (x ∷ xs) =
    write_dwords ring_size_dw (set ring_ptr tail x)
      (bit_and (u32 (tail + 1)) (sub32 ring_size_dw 1)) xs

unfoldable pub ring_write : Ring → List ℕ → Ring
unfolding write_dwords
ring_write ring dwords =
    let (ring_ptr, tail) = write_dwords (u32 (ring.size / 4)) ring.vaddr ring.tail dwords in
    record ring { vaddr = ring_ptr; tail = tail }

unfoldable pub ring_kick : Ring → Io Ring
ring_kick ring = do
  write (queue_reg reg_cmd_tail ring.queue_id) ring.tail
  write (reg_doorbell ring.queue_id) 1
  pure (record ring { submitted_cmds = u64 (ring.submitted_cmds + 1) })
