-- ===== src/Ring/Power.antt =====
-- Suspend, resume, stop and the completion interrupt of the command queue, of
-- kernel/drivers/gpu/mgpu/mgpu_cmdq.c. `jiffies` is an argument where it is stored.
use package.amdhardware_kernel.Common.{
  ℕ, zero, suc, ◌+◌, ◌≡◌, refl, true, false, not, Option, none, some, ◌∷◌, arith, ◌==◌,
  if◌then◌else◌, u32, u64,
}
use package.amdhardware_kernel.Bus.{
  space_queue, rd, wr, sleep, wake, Trace, Hw, Io, ◌>>=◌, ◌>>◌, pure, read, emit, write, unit_done,
}
use package.amdhardware_kernel.Bus.Regs.{
  reg_cmd_base, reg_cmd_size, reg_cmd_head, reg_cmd_tail, reg_cmd_doorbell, reg_fence_addr,
}
use package.amdhardware_kernel.Core.{core_wait_idle}
use package.amdhardware_kernel.Ring.{Ring, queue_reg}

module _ (hw : Hw) where
  -- The rounds of the wait in `mgpu_cmdq_suspend`; `polls` is the number of rounds that start before
  -- the deadline, after the first. The result is the last `head`.
  pub drain : Ring → ℕ → Io ℕ
  drain ring zero h =
      let (head, h₁) = read hw (queue_reg reg_cmd_head ring.queue_id) h in
      let (tail, h₂) = read hw (queue_reg reg_cmd_tail ring.queue_id) h₁ in
      (head, if head == tail then h₂ else sleep 10 ∷ h₂)
  drain ring (suc polls) h =
      let (head, h₁) = read hw (queue_reg reg_cmd_head ring.queue_id) h in
      let (tail, h₂) = read hw (queue_reg reg_cmd_tail ring.queue_id) h₁ in
      let rest = drain ring polls (sleep 10 ∷ h₂) in if head == tail then (head, h₂) else rest

  unfoldable pub cmdq_suspend : ℕ → Option Ring → Io (Option Ring)
  unfolding drain
  cmdq_suspend polls none = pure none
  cmdq_suspend polls (some ring) = do
    head ← drain (record ring { enabled = false }) polls
    pure (some (record ring { enabled = false; last_head = head }))

  -- `polls` is that of `mgpu_core_wait_idle(mdev, 100)`.
  pub cmdq_stop : ℕ → Option Ring → Io (Option Ring)
  cmdq_stop polls none = pure none
  cmdq_stop polls (some ring) = do
    write (queue_reg reg_cmd_doorbell ring.queue_id) 0
    head ← read hw (queue_reg reg_cmd_head ring.queue_id)
    idle ← core_wait_idle hw polls
    pure (some (record ring { enabled = false; last_head = head }))

  pub cmdq_irq_handler : ℕ → Option Ring → Io (Option Ring)
  cmdq_irq_handler jiffies none = pure none
  cmdq_irq_handler jiffies (some ring) = do
    head ← read hw (queue_reg reg_cmd_head ring.queue_id)
    tail ← read hw (queue_reg reg_cmd_tail ring.queue_id)
    if not (head == tail) then emit (wake space_queue) else unit_done
    pure (
        some (
          if not (head == ring.last_head)
          then record ring {
            completed_cmds = u64 (ring.completed_cmds + 1);
            last_head = head;
            last_activity = jiffies;
          }
          else ring))

unfoldable pub cmdq_resume : Option Ring → Io (Option Ring)
cmdq_resume none = pure none
cmdq_resume (some ring) = do
  write (queue_reg reg_cmd_base ring.queue_id) (u32 ring.dma_addr)
  write (queue_reg reg_cmd_size ring.queue_id) (u32 ring.size)
  write (queue_reg reg_cmd_head ring.queue_id) ring.last_head
  write (queue_reg reg_cmd_tail ring.queue_id) ring.tail
  emit (wake space_queue)
  pure (some (record ring { enabled = true }))

-- The wait of a suspend, over the bus.
abbrev pub drained : Hw → Ring → ℕ → Trace → ℕ × Trace
drained hw ring polls h = drain hw (record ring { enabled = false }) polls h

-- A suspend followed by a resume gives the queue its memory, the head that the suspend read
-- last and the driver's tail back, in that order, and leaves the ring as it was but for
-- `enabled`, now true, and the stored head.
pub cmdq_suspend_resume :
    (hw : Hw) (polls : ℕ) (r : Ring) (h : Trace)
    → let (head, h') = drained hw r polls h in
      (cmdq_suspend hw polls (some r) >>= cmdq_resume) h ≡ (
        some (record r { enabled = true; last_head = head }),
        wake space_queue
            ∷ wr (queue_reg reg_cmd_tail r.queue_id) r.tail
            ∷ wr (queue_reg reg_cmd_head r.queue_id) head
            ∷ wr (queue_reg reg_cmd_size r.queue_id) (u32 r.size)
            ∷ wr (queue_reg reg_cmd_base r.queue_id) (u32 r.dma_addr)
            ∷ h',
      )
unfolding cmdq_suspend cmdq_resume
cmdq_suspend_resume hw polls r h = refl

-- The stop of a ring of queue 1 clears the fence address register of the device: the doorbell
-- register of that queue, at the stride of 16 bytes, is at the address of that register.
pub cmdq_stop-fence_addr :
    (hw : Hw) (polls : ℕ) (r : Ring) (h : Trace)
    → r.queue_id ≡ 1
    → (cmdq_stop hw polls (some r) h).1
      ≡ (core_wait_idle hw polls (rd (queue_reg reg_cmd_head 1) ∷ wr reg_fence_addr 0 ∷ h)).1
unfolding cmdq_stop
cmdq_stop-fence_addr hw polls r h e = ground arith

-- The completion interrupt counts one command exactly when the head has moved since the last
-- look, stores the head read, and wakes the waiters exactly when head and tail differ.
pub cmdq_irq_handler_lem :
    (hw : Hw) (jiffies : ℕ) (r : Ring) (h : Trace)
    → let head = hw h (queue_reg reg_cmd_head r.queue_id) in
      let h₁ = rd (queue_reg reg_cmd_head r.queue_id) ∷ h in
      let tail = hw h₁ (queue_reg reg_cmd_tail r.queue_id) in
      let h₂ = rd (queue_reg reg_cmd_tail r.queue_id) ∷ h₁ in
      (r' : Ring) × ((cmdq_irq_handler hw jiffies (some r) h).0 ≡ some r')
      × (r'.last_head ≡ head)
      × (r'.completed_cmds
          ≡ (if head == r.last_head then r.completed_cmds else u64 (r.completed_cmds + 1)))
      × ((cmdq_irq_handler hw jiffies (some r) h).1
          ≡ (if head == tail then h₂ else wake space_queue ∷ h₂))
unfolding cmdq_irq_handler
cmdq_irq_handler_lem hw jiffies r h = (
  (if not (hw h (queue_reg reg_cmd_head r.queue_id) == r.last_head)
      then record r {
        completed_cmds = u64 (r.completed_cmds + 1);
        last_head = hw h (queue_reg reg_cmd_head r.queue_id);
        last_activity = jiffies;
      }
      else r),
  ground arith,
  ground arith,
  ground arith,
  ground arith,
)
