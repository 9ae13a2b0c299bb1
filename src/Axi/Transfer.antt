-- ===== src/Axi/Transfer.antt =====
-- `mgpu_axi_write`, `mgpu_axi_read` and `mgpu_axi_dma_transfer`. What happens while a call sleeps in
-- `wait_for_completion_timeout` is an argument: the interrupts, the expiry of the timer and the resets
-- of the statistics until the sleep ends, in their order.
pub mod Outcome
mod Tests
use package.amdhardware_kernel.Common.{
  page_size, ℕ, zero, suc, ◌+◌, ◌-◌, ◌*◌, ◌%◌, Bool, true, false, Option, none, some, List, [], ◌∷◌,
  ◌==◌, ◌||◌, not, ltb, if◌then◌else◌, bit_or, u64,
}
use package.amdhardware_kernel.Bus.{
  Event, Trace, Hw, Io, ◌>>=◌, ◌>>◌, pure, read, write, ebusy, einval, enodev, enomem, etimedout,
  Status, ok, err,
}
use package.amdhardware_kernel.Bus.Regs.{reg_control, ctrl_enable}
use package.amdhardware_kernel.Klist.{Run, fault, unending, done, update}
use package.amdhardware_kernel.Axi.{
  AxiState, axi_write_addr, axi_read_addr, AxiTransaction, AxiCtrl, setup_burst, axi_timeout,
  axi_irq_handler,
}

pub data AxiEvent : Type 0 where
  interrupt : AxiEvent
  -- The timer expires, if it is pending.
  timer : AxiEvent
  -- `mgpu_axi_reset_stats`
  reset_stats : AxiEvent

unfoldable pub axi_reset_stats : AxiCtrl → AxiCtrl
axi_reset_stats ctrl = record ctrl {
  read_txns = 0;
  write_txns = 0;
  read_bytes = 0;
  write_bytes = 0;
  error_count = 0;
}

abbrev pub txn_done : Option AxiTransaction → Bool
txn_done none = false
txn_done (some txn) = txn.done

abbrev pub status_of : Option AxiTransaction → Status
status_of none = ok
status_of (some txn) = txn.status

-- The transaction leaves the stack when the call returns.
pub returned : ℕ → Status → AxiCtrl → Option (Status × AxiCtrl)
returned p status ctrl = some (status, record ctrl { txns = update ctrl.txns p none })

-- The statistics of a transaction that ended with status 0.
pub count_transfer : Bool → ℕ → Status → AxiCtrl → AxiCtrl
count_transfer is_write size (err e) ctrl = ctrl
count_transfer true size ok ctrl = record ctrl {
  write_txns = u64 (ctrl.write_txns + 1);
  write_bytes = u64 (ctrl.write_bytes + size);
}
count_transfer false size ok ctrl = record ctrl {
  read_txns = u64 (ctrl.read_txns + 1);
  read_bytes = u64 (ctrl.read_bytes + size);
}

-- After the sleep.
pub waited : Bool → ℕ → ℕ → Option (Bool × AxiCtrl) → Option (Status × AxiCtrl)
unfolding returned count_transfer
waited is_write p size none = none
waited is_write p size (some (false, ctrl)) = returned p (err etimedout) ctrl
waited is_write p size (some (true, ctrl)) =
    let status = status_of (ctrl.txns p) in
    returned p status (count_transfer is_write size status ctrl)

-- The transaction at `p` becomes the current one.
pub submitted : Bool → ℕ → ℕ → ℕ → AxiCtrl → AxiCtrl
unfolding setup_burst
submitted is_write p addr size ctrl = record ctrl {
  current_txn = some p;
  state = if is_write then axi_write_addr else axi_read_addr;
  timer_pending = true;
  txns = update ctrl.txns p (
      some (record {
        addr = addr;
        size = size;
        is_write = is_write;
        burst = setup_burst addr size;
        done = false;
        status = ok;
      }));
}

module _ (hw : Hw) (in_reset : Bool) where
  pub run_event : AxiEvent → AxiCtrl → Io (Option AxiCtrl)
  unfolding axi_reset_stats
  run_event interrupt ctrl = axi_irq_handler hw ctrl
  run_event timer ctrl = if ctrl.timer_pending then axi_timeout in_reset ctrl else pure (some ctrl)
  run_event reset_stats ctrl = pure (some (axi_reset_stats ctrl))

  -- `wait_for_completion_timeout` for the transaction at `p`: whether it was completed before the events
  -- of the sleep were over.
  pub wait_done : ℕ → List AxiEvent → AxiCtrl → Io (Option (Bool × AxiCtrl))
  wait_done p [] ctrl h = (some (txn_done (ctrl.txns p), ctrl), h)
  wait_done p (event ∷ events) ctrl h =
      let (after, h') = run_event event ctrl h in
      let rest : Option (Bool × AxiCtrl) × List Event = elim after [
        | none ↦ (none, h')
        | some ctrl' ↦ wait_done p events ctrl' h'
      ] in
      if txn_done (ctrl.txns p) then (some (true, ctrl), h) else rest

  -- `mgpu_axi_write` and `mgpu_axi_read`, which differ in the direction only, with a controller; `p` is
  -- the address of the variable `txn`.
  pub axi_transfer : Bool → ℕ → List AxiEvent → ℕ → ℕ → AxiCtrl → Io (Option (Status × AxiCtrl))
  unfolding submitted waited wait_done
  axi_transfer is_write p events addr size ctrl = elim ctrl.current_txn [
    | some other ↦ pure (some (err ebusy, ctrl))
    | none ↦ do
      control ← read hw reg_control
      write reg_control (bit_or control ctrl_enable)
      answer ← wait_done p events (submitted is_write p addr size ctrl)
      pure (waited is_write p size answer)
  ]

-- The checks at the start of `mgpu_axi_dma_transfer`.
pub dma_refused : ℕ → ℕ → ℕ → Bool
dma_refused src dst size =
    size == 0
    || ltb (16 * 1024 * 1024) size
    || (not (src % 4 == 0) || not (dst % 4 == 0) || not (size % 4 == 0))

-- A fault of a transfer in the loop over chunks, which has the outcome `unending` as well.
abbrev pub in_loop : {A : Type 0} → Option A → Run A
in_loop none = fault
in_loop (some a) = done a

-- The size of the next chunk.
pub chunk_of : ℕ → ℕ → ℕ
chunk_of remaining chunk_size = if ltb remaining chunk_size then remaining else chunk_size

-- `move` is what a call on at most a page does once its arguments have passed the checks.
module _ {S : Type 0} (move : ℕ → ℕ → ℕ → S → Io (Option (Status × S))) where
  -- The recursive call, on at most a page.
  pub dma_small : ℕ → ℕ → ℕ → S → Io (Option (Status × S))
  unfolding dma_refused
  dma_small src dst size s =
      if dma_refused src dst size then pure (some (err einval, s)) else move src dst size s

  -- The loop over chunks: `remaining` bytes in chunks of `chunk_size`.
  pub dma_chunks : ℕ → ℕ → ℕ → ℕ → ℕ → S → Io (Run (Status × S))
  unfolding chunk_of dma_small
  dma_chunks zero src dst remaining chunk_size s h = (unending, h)
  dma_chunks (suc rounds) src dst remaining chunk_size s h =
      let chunk = chunk_of remaining chunk_size in
      let (answer, h') = dma_small src dst chunk s h in
      let rest : Run (Status × S) × List Event = elim answer [
        | none ↦ (fault, h')
        | some (err e, s') ↦ (done (err e, s'), h')
        | some (ok, s') ↦
            dma_chunks rounds (u64 (src + chunk)) (u64 (dst + chunk)) (remaining - chunk) chunk s'
              h'
      ] in
      if remaining == 0 then (done (ok, s), h) else rest

  pub dma_transfer : ℕ → ℕ → ℕ → S → Io (Run (Status × S))
  unfolding dma_refused dma_chunks
  dma_transfer src dst size s =
      if dma_refused src dst size
      then pure (done (err einval, s))
      else if ltb page_size size
      then dma_chunks (suc size) src dst size page_size s
      else do answer ← move src dst size s; pure (in_loop answer)

module _ (hw : Hw) (in_reset : Bool) (kmalloc : Bool) (p : ℕ) (sleep : Trace → List AxiEvent) where
  -- The write of what was read, if it was.
  pub written : ℕ → ℕ → Option (Status × AxiCtrl) → Io (Option (Status × AxiCtrl))
  unfolding axi_transfer
  written dst size none h = (none, h)
  written dst size (some (err e, ctrl)) h = (some (err e, ctrl), h)
  written dst size (some (ok, ctrl)) h = axi_transfer hw in_reset true p (sleep h) dst size ctrl h

  -- Through a buffer from `kmalloc`, which is freed on every path.
  pub axi_move : ℕ → ℕ → ℕ → AxiCtrl → Io (Option (Status × AxiCtrl))
  unfolding axi_transfer written
  axi_move src dst size ctrl h =
      if not kmalloc
      then (some (err enomem, ctrl), h)
      else let (answer, h') = axi_transfer hw in_reset false p (sleep h) src size ctrl h in
        written dst size answer h'

  -- `mgpu_axi_dma_transfer`; `blocking` is ignored.
  pub axi_dma_transfer : ℕ → ℕ → ℕ → AxiCtrl → Io (Run (Status × AxiCtrl))
  unfolding dma_transfer axi_move
  axi_dma_transfer = dma_transfer axi_move
