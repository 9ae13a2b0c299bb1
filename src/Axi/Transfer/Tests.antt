-- ===== src/Axi/Transfer/Tests.antt =====
-- Transfers of a new controller.
use package.amdhardware_kernel.Common.{
  ℕ, List, ◌≡◌, refl, true, false, [], ◌∷◌, Option, none, some, arith, leb, if◌then◌else◌,
}
use package.amdhardware_kernel.Bus.{
  Trace, Hw, Io, pure, etimedout, ebusy, einval, eio, Status, ok, err,
}
use package.amdhardware_kernel.Klist.{Run, done, update}
use package.amdhardware_kernel.Axi.{
  AxiCtrl, axi_idle, axi_write_resp, axi_timeout, axi_irq_handler, handle_response, setup_burst,
}
use package.amdhardware_kernel.Axi.Beats.{burst_bytes, setup_burst_bytes}
use package.amdhardware_kernel.Axi.Setup.{initial_ctrl}
use package.amdhardware_kernel.Axi.Transfer.{
  interrupt, timer, reset_stats, axi_transfer, run_event, dma_chunks, dma_transfer,
  axi_dma_transfer,
}
use package.amdhardware_kernel.Axi.Transfer.Outcome.{has_timer, axi_transfer-times_out}

abbrev silent : Hw
silent h r = 0

axi_transfer-times_out_example :
    (ctrl' : AxiCtrl) × ((axi_transfer silent false true 0x100
        (interrupt ∷ reset_stats ∷ [])
        0x8000
        64
        initial_ctrl
        []).0
      ≡ some (err etimedout, ctrl'))
    × (has_timer (interrupt ∷ reset_stats ∷ []) ≡ true
        → (ctrl'.current_txn ≡ none) × (ctrl'.state ≡ axi_idle))
    × (has_timer (interrupt ∷ reset_stats ∷ []) ≡ false
        → (ctrl'.current_txn ≡ some 0x100)
          × (ctrl'.timer_pending ≡ true)
          × ((h' : Trace) → (axi_timeout false ctrl' h').0 ≡ none))
axi_transfer-times_out_example =
    axi_transfer-times_out silent false true 0x100 (interrupt ∷ reset_stats ∷ []) 0x8000 64
      initial_ctrl [] refl

setup_burst_bytes_example : burst_bytes 0x1000 4096 ≡ (if leb 4096 1024 then 4096 else 1024)
setup_burst_bytes_example = setup_burst_bytes 0x1000 4096 (omega arith) refl (omega arith)

-- A response in the state in which it is expected.
abbrev responding : AxiCtrl
responding = record initial_ctrl {
  current_txn = some 0x100;
  state = axi_write_resp;
  timer_pending = true;
  txns = update initial_ctrl.txns 0x100 (
      some (record {
        addr = 0x8000;
        size = 4;
        is_write = true;
        burst = setup_burst 0x8000 4;
        done = false;
        status = err eio;
      }));
}

abbrev state_after : Option AxiCtrl → AxiCtrl
state_after none = responding
state_after (some ctrl) = ctrl

abbrev status_in : Run (Status × AxiCtrl) → Status
status_in (done (ret, ctrl)) = ret
status_in other = ok

answered :
    ((state_after (axi_irq_handler silent responding []).0).current_txn ≡ none)
    × ((state_after (axi_irq_handler silent responding []).0).timer_pending ≡ false)
unfolding axi_irq_handler
answered = (refl, refl)

-- SLVERR
slave_error : (state_after (handle_response 2 responding)).last_error_addr ≡ 0x8000
unfolding handle_response
slave_error = refl

busy :
    (axi_transfer silent false false 0x200 [] 0x8000 4 responding []).0
    ≡ some (err ebusy, responding)
unfolding axi_transfer
busy = refl

-- Keeps the chunks that it is asked to move, the last first.
abbrev recorder : ℕ → ℕ → ℕ → List (ℕ × ℕ × ℕ) → Io (Option (Status × List (ℕ × ℕ × ℕ)))
recorder src dst size l = pure (some (ok, (src, dst, size) ∷ l))

odd_address : (dma_transfer recorder 2 0 4 [] []).0 ≡ done (err einval, [])
unfolding dma_transfer
odd_address = refl

two_chunks :
    (dma_transfer recorder 0 0x10000 0x1800 [] []).0
    ≡ done (ok, (0x1000, 0x11000, 0x800) ∷ (0, 0x10000, 0x1000) ∷ [])
unfolding dma_transfer dma_chunks
two_chunks = refl

-- The timer ends the read, so that nothing is written.
dma_fails :
    status_in
      (axi_dma_transfer silent false true 0x100 (λ h. timer ∷ []) 0x1000 0x2000 8 initial_ctrl []).0
    ≡ err etimedout
unfolding axi_dma_transfer dma_transfer run_event axi_timeout
dma_fails = refl
