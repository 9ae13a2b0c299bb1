-- ===== src/Ring/Submit.antt =====
-- `mgpu_submit_commands` of kernel/drivers/gpu/mgpu/mgpu_cmdq.c, with `mgpu_cmdq_init` and
-- `mgpu_cmdq_fini`.
pub mod Invariant
pub mod Effect
mod Tests
use package.amdhardware_kernel.Common.{
  ℕ, zero, suc, ◌+◌, ◌*◌, ◌/◌, List, [], ◌∷◌, Bool, true, false, not, ◌||◌, Option, none, some, leb,
  ◌^◌, ◌==◌, if◌then◌else◌, u32, flag, take,
}
use package.amdhardware_kernel.Bus.{
  sleep, Hw, Io, ◌>>=◌, ◌>>◌, pure, read, einval, enomem, efault, etimedout, Status, ok, err,
}
use package.amdhardware_kernel.Bus.Regs.{
  reg_cmd_head, reg_cmd_tail, ring_size_min, max_queues, cmd_fence,
}
use package.amdhardware_kernel.Core.{timed_out}
use package.amdhardware_kernel.Ring.{
  Ring, Pow2, Alloc, queue_reg, ring_create, ring_destroy, ring_wait_space, ring_write, ring_kick,
}

-- `struct mgpu_submit`
pub record Submit : Type 0 where
  pub commands : ℕ
  pub cmd_size : ℕ
  pub queue_id : ℕ
  pub flags : ℕ
  pub fence_addr : ℕ
  pub fence_value : ℕ

abbrev pub submit_flags_fence : ℕ
submit_flags_fence = 1

abbrev pub submit_flags_sync : ℕ
submit_flags_sync = 2

-- The answers of the allocators and of `copy_from_user`, which gives the dwords copied.
pub record Kernel : Type 0 where
  pub pow2 : Pow2
  pub alloc : Alloc
  pub kmalloc : Bool
  pub user : Option (List ℕ)

-- `struct mgpu_cmd_fence` as dwords: opcode in bits 0-7, size in dwords in bits 8-15.
abbrev pub fence_cmd : Submit → List ℕ
fence_cmd args = (cmd_fence + 3 * 2 ^ 8) ∷ u32 args.fence_addr ∷ u32 args.fence_value ∷ []

-- `int` with the ring that `mdev->cmd_ring` points to.
abbrev pub Outcome : Type 0
Outcome = Status × Option Ring

module _ (hw : Hw) where
  -- The polling of a synchronous submit with `timeout` left; the result is `timeout` after the loop,
  -- `none` for -1.
  pub sync_poll : Ring → ℕ → Io (Option ℕ)
  sync_poll ring zero h =
      let (head, h₁) = read hw (queue_reg reg_cmd_head ring.queue_id) h in
      let (tail, h₂) = read hw (queue_reg reg_cmd_tail ring.queue_id) h₁ in
      if head == tail then (some 0, h₂) else (none, sleep 1 ∷ h₂)
  sync_poll ring (suc timeout) h =
      let (head, h₁) = read hw (queue_reg reg_cmd_head ring.queue_id) h in
      let (tail, h₂) = read hw (queue_reg reg_cmd_tail ring.queue_id) h₁ in
      let rest = sync_poll ring timeout (sleep 1 ∷ h₂) in
      if head == tail then (some (suc timeout), h₂) else rest

  -- From `mgpu_ring_kick` to the end.
  unfoldable pub submit_kick : Submit → Ring → Io Outcome
  submit_kick args ring = do
    ring' ← ring_kick ring
    if not (flag args.flags submit_flags_sync) then pure (ok, some ring') else do
      timeout ← sync_poll ring' 1000
      pure (if timed_out timeout then err etimedout else ok, some ring')

  module _ (space : Ring → Io ℕ) where
    unfoldable pub submit_fence_granted : Submit → Ring → Status → Io Outcome
    submit_fence_granted args ring ok = submit_kick args (ring_write ring (fence_cmd args))
    submit_fence_granted args ring (err e) = pure (err e, some ring)

    -- The part that adds the fence command, if one is requested.
    unfoldable pub submit_fence : Submit → Ring → Io Outcome
    unfolding submit_fence_granted
    submit_fence args ring =
        if flag args.flags submit_flags_fence
        then (do ret ← ring_wait_space space ring 3; submit_fence_granted args ring ret)
        else submit_kick args ring

    unfoldable pub submit_granted : Submit → List ℕ → Ring → Status → Io Outcome
    submit_granted args dwords ring ok = submit_fence args (ring_write ring dwords)
    submit_granted args dwords ring (err e) = pure (err e, some ring)

    -- Under the lock: the dwords of the command buffer.
    unfoldable pub submit_dwords : Submit → List ℕ → Ring → Io Outcome
    unfolding submit_granted
    submit_dwords args cmds ring = do
      ret ← ring_wait_space space ring (args.cmd_size / 4)
      submit_granted args (take (args.cmd_size / 4) cmds) ring ret

    -- From `kmalloc` and `copy_from_user` on.
    unfoldable pub submit_copied : Submit → Bool → Option (List ℕ) → Ring → Io Outcome
    submit_copied args false user ring = pure (err enomem, some ring)
    submit_copied args true none ring = pure (err efault, some ring)
    submit_copied args true (some cmds) ring = submit_dwords args cmds ring

    unfoldable pub submit_to : Kernel → Submit → Option Ring → Io Outcome
    submit_to kern args none = pure (err enomem, none)
    submit_to kern args (some ring) = submit_copied args kern.kmalloc kern.user ring

    -- `ring = mdev->cmd_ring`, made if there is none.
    unfoldable pub cmd_ring_of : Kernel → Submit → Option Ring → Io (Option Ring)
    cmd_ring_of kern args none = ring_create kern.pow2 kern.alloc ring_size_min args.queue_id
    cmd_ring_of kern args (some ring) = pure (some ring)

    unfoldable pub submit_commands : Kernel → Submit → Option Ring → Io Outcome
    unfolding submit_to cmd_ring_of
    submit_commands kern args cmd_ring =
        if args.commands == 0 || args.cmd_size == 0
        then pure (err einval, cmd_ring)
        else if leb max_queues args.queue_id
        then pure (err einval, cmd_ring)
        else do ring ← cmd_ring_of kern args cmd_ring; submit_to kern args ring

cmdq_init_status : Option Ring → Outcome
cmdq_init_status none = (err enomem, none)
cmdq_init_status (some ring) = (ok, some ring)

-- `mgpu_cmdq_init` and `mgpu_cmdq_fini`
pub cmdq_init : Pow2 → Alloc → Io Outcome
unfolding cmdq_init_status
cmdq_init p a = do ring ← ring_create p a ring_size_min 0; pure (cmdq_init_status ring)

pub cmdq_fini : Option Ring → Io (Option Ring)
cmdq_fini cmd_ring = ring_destroy cmd_ring >> pure none
