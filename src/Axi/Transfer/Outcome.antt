-- ===== src/Axi/Transfer/Outcome.antt =====
-- How a transaction ends.
use package.amdhardware_kernel.Common.{
  ℕ, bit_or, ◌+◌, u64, ◌≡◌, refl, ap, ◌∙◌, Bool, true, false, Option, none, some, List, [], ◌∷◌,
  arith, if_true,
}
use package.amdhardware_kernel.Bus.{rd, wr, Trace, Hw, Io, etimedout, ok, err}
use package.amdhardware_kernel.Bus.Regs.{reg_control, ctrl_enable}
use package.amdhardware_kernel.Klist.{update}
use package.amdhardware_kernel.Axi.{
  AxiState, axi_idle, axi_write_addr, axi_write_data, axi_write_resp, axi_read_addr, axi_read_data,
  AxiTransaction, AxiCtrl, setup_burst, axi_timeout, timeout_counted, complete_current, complete_at,
  irq_in, axi_irq_handler,
}
use package.amdhardware_kernel.Axi.Transfer.{
  AxiEvent, interrupt, timer, reset_stats, axi_reset_stats, run_event, wait_done, returned, waited,
  submitted, count_transfer, axi_transfer, txn_done, status_of,
}

abbrev pub has_timer : List AxiEvent → Bool
has_timer [] = false
has_timer (timer ∷ events) = true
has_timer (_ ∷ events) = has_timer events

-- The states in which an interrupt ends a transaction. No code of the driver enters them.
abbrev pub answers : AxiState → Bool
answers axi_write_resp = true
answers axi_read_data = true
answers _ = false

-- A transaction at `p` that has been submitted and not answered.
pub record Submitted (p : ℕ) (ctrl : AxiCtrl) : Type 0 where
  pub current : ctrl.current_txn ≡ some p
  pub txn : AxiTransaction
  pub at : ctrl.txns p ≡ some txn
  pub open_ : txn.done ≡ false
  pub quiet : answers ctrl.state ≡ false
  pub pending : ctrl.timer_pending ≡ true

-- The timer has ended the transaction at `p`.
pub record TimedOut (p : ℕ) (ctrl : AxiCtrl) : Type 0 where
  pub current : ctrl.current_txn ≡ none
  pub idle : ctrl.state ≡ axi_idle
  pub txn : AxiTransaction
  pub at : ctrl.txns p ≡ some txn
  pub complete : txn.done ≡ true
  pub late : txn.status ≡ err etimedout

-- After a sleep in which the timer expired, or not.
abbrev After : Bool → ℕ → AxiCtrl → Type 0
After true = TimedOut
After false = Submitted

irq_in_quiet :
    (state : AxiState) (ctrl : AxiCtrl) → answers state ≡ false → irq_in state ctrl ≡ some ctrl
unfolding irq_in
irq_in_quiet axi_idle ctrl e = refl
irq_in_quiet axi_write_addr ctrl e = refl
irq_in_quiet axi_write_data ctrl e = refl
irq_in_quiet axi_read_addr ctrl e = refl
irq_in_quiet axi_write_resp ctrl e = cc
irq_in_quiet axi_read_data ctrl e = cc

submitted-Submitted :
    (is_write : Bool) (p addr size : ℕ) (ctrl : AxiCtrl)
    → Submitted p (submitted is_write p addr size ctrl)
unfolding submitted
submitted-Submitted is_write p addr size ctrl = record {
  current = refl;
  txn = record {
    addr = addr;
    size = size;
    is_write = is_write;
    burst = setup_burst addr size;
    done = false;
    status = ok;
  };
  at = ground arith;
  open_ = refl;
  quiet = ground arith;
  pending = refl;
}

module _ (hw : Hw) (in_reset : Bool) where
  irq_quiet :
      (ctrl : AxiCtrl) (h : Trace)
      → answers ctrl.state ≡ false
      → (axi_irq_handler hw ctrl h).0 ≡ some ctrl
  unfolding axi_irq_handler
  irq_quiet ctrl h e = irq_in_quiet ctrl.state ctrl e

  -- The manager that the timer leaves of a controller with this transaction.
  expired : ℕ → AxiTransaction → AxiCtrl → AxiCtrl
  expired p txn ctrl = record ctrl {
    timer_pending = false;
    current_txn = none;
    state = axi_idle;
    error_count = u64 (ctrl.error_count + 1);
    txns = update ctrl.txns p (some (record txn { status = err etimedout; done = true }));
  }

  axi_timeout_current :
      (p : ℕ) (txn : AxiTransaction) (ctrl : AxiCtrl) (h : Trace)
      → ctrl.current_txn ≡ some p
      → ctrl.txns p ≡ some txn
      → (axi_timeout in_reset ctrl h).0 ≡ some (expired p txn ctrl)
  unfolding axi_timeout complete_current complete_at timeout_counted expired
  axi_timeout_current p txn ctrl h c t = rw (c, complete_current) (rw (t, complete_at) refl)

  axi_timeout_dead :
      (p : ℕ) (ctrl : AxiCtrl) (h : Trace)
      → ctrl.current_txn ≡ some p
      → ctrl.txns p ≡ none
      → (axi_timeout in_reset ctrl h).0 ≡ none
  unfolding axi_timeout complete_current complete_at timeout_counted
  axi_timeout_dead p ctrl h c t = rw (c, complete_current) (rw (t, complete_at) refl)

  -- One event of the sleep.
  run_event-After :
      (event : AxiEvent) (p : ℕ) (ctrl : AxiCtrl) (h : Trace)
      → Submitted p ctrl
      → (ctrl' : AxiCtrl) × ((run_event hw in_reset event ctrl h).0 ≡ some ctrl')
        × After (has_timer (event ∷ [])) p ctrl'
  unfolding run_event axi_reset_stats expired
  run_event-After interrupt p ctrl h s = (ctrl, irq_quiet ctrl h s.quiet, s)
  run_event-After timer p ctrl h s = (
    expired p s.txn ctrl,
    ap (λ (m : Io (Option AxiCtrl)). (m h).0) (if_true _ _ s.pending)
        ∙ axi_timeout_current p s.txn ctrl h s.current s.at,
    record {
      current = refl;
      idle = refl;
      txn = record s.txn { status = err etimedout; done = true };
      at = ground arith;
      complete = refl;
      late = refl;
    },
  )
  run_event-After reset_stats p ctrl h s = (
    axi_reset_stats ctrl,
    refl,
    record {
      current = s.current;
      txn = s.txn;
      at = s.at;
      open_ = s.open_;
      quiet = s.quiet;
      pending = s.pending;
    },
  )

  wait_done_ended :
      (events : List AxiEvent) (p : ℕ) (ctrl : AxiCtrl) (h : Trace)
      → TimedOut p ctrl
      → (wait_done hw in_reset p events ctrl h).0 ≡ some (true, ctrl)
  unfolding wait_done
  wait_done_ended [] p ctrl h t = ap (λ b. some (b, ctrl)) (ap txn_done t.at ∙ t.complete)
  wait_done_ended (event ∷ events) p ctrl h t = rw (ap txn_done t.at ∙ t.complete)

  wait_done-After :
      (events : List AxiEvent) (p : ℕ) (ctrl : AxiCtrl) (h : Trace)
      → Submitted p ctrl
      → (ctrl' : AxiCtrl) × ((wait_done hw in_reset p events ctrl h).0
          ≡ some (has_timer events, ctrl'))
        × After (has_timer events) p ctrl'
  unfolding wait_done
  wait_done-After [] p ctrl h s = (ctrl, ap (λ b. some (b, ctrl)) (ap txn_done s.at ∙ s.open_), s)
  wait_done-After (timer ∷ events) p ctrl h s =
      let (next, e, after) = run_event-After timer p ctrl h s in
      let h' = (run_event hw in_reset timer ctrl h).1 in
      rw (ap txn_done s.at ∙ s.open_, e) (next, wait_done_ended events p next h' after, after)
  wait_done-After (interrupt ∷ events) p ctrl h s =
      let (next, e, after) = run_event-After interrupt p ctrl h s in
      rw (ap txn_done s.at ∙ s.open_, e)
        (wait_done-After events p next (run_event hw in_reset interrupt ctrl h).1 after)
  wait_done-After (reset_stats ∷ events) p ctrl h s =
      let (next, e, after) = run_event-After reset_stats p ctrl h s in
      rw (ap txn_done s.at ∙ s.open_, e)
        (wait_done-After events p next (run_event hw in_reset reset_stats ctrl h).1 after)

  waited-After :
      (b is_write : Bool) (p size : ℕ) (ctrl : AxiCtrl)
      → After b p ctrl
      → (ctrl' : AxiCtrl) × (waited is_write p size (some (b, ctrl)) ≡ some (err etimedout, ctrl'))
        × (b ≡ true → (ctrl'.current_txn ≡ none) × (ctrl'.state ≡ axi_idle))
        × (b ≡ false
            → (ctrl'.current_txn ≡ some p)
              × (ctrl'.timer_pending ≡ true)
              × ((h' : Trace) → (axi_timeout in_reset ctrl' h').0 ≡ none))
  unfolding waited returned count_transfer
  waited-After true is_write p size ctrl a = (
    record ctrl { txns = update ctrl.txns p none },
    rw (ap status_of a.at ∙ a.late),
    (λ e. (a.current, a.idle)),
    λ e. cc,
  )
  waited-After false is_write p size ctrl a =
      let left = record ctrl { txns = update ctrl.txns p none } in
      (
        left,
        refl,
        (λ e. cc),
        λ e. (a.current, a.pending, λ h'. axi_timeout_dead p left h' a.current (ground arith)),
      )

  -- On a controller with no current transaction, whatever interrupts come and whatever the device
  -- answers, a transfer returns -ETIMEDOUT: no code of the driver enters the states in which an interrupt
  -- would end it. When the timer expires during the sleep the controller is idle and free again. When the
  -- sleep ends first the pointer to the transaction stays behind, the timer too, and the timer's expiry
  -- is a fault.
  pub axi_transfer-times_out :
      (is_write : Bool) (p : ℕ) (events : List AxiEvent) (addr size : ℕ) (ctrl : AxiCtrl)
      (h : Trace)
      → ctrl.current_txn ≡ none
      → (ctrl' : AxiCtrl) × ((axi_transfer hw in_reset is_write p events addr size ctrl h).0
          ≡ some (err etimedout, ctrl'))
        × (has_timer events ≡ true → (ctrl'.current_txn ≡ none) × (ctrl'.state ≡ axi_idle))
        × (has_timer events ≡ false
            → (ctrl'.current_txn ≡ some p)
              × (ctrl'.timer_pending ≡ true)
              × ((h' : Trace) → (axi_timeout in_reset ctrl' h').0 ≡ none))
  unfolding axi_transfer
  axi_transfer-times_out is_write p events addr size ctrl h e =
      let begun = submitted is_write p addr size (record ctrl { current_txn = none }) in
      let h' = wr reg_control (bit_or (hw h reg_control) ctrl_enable) ∷ rd reg_control ∷ h in
      let (ctrl', e', after) =
        wait_done-After events p begun h'
          (submitted-Submitted is_write p addr size (record ctrl { current_txn = none })) in
      rw (e, e') (waited-After (has_timer events) is_write p size ctrl' after)
