-- ===== src/Pipeline/Flush.antt =====
-- When `mgpu_pipeline_flush` succeeds.
use package.amdhardware_kernel.Common.{◌≡◌, ◌↔◌, ◌∷◌, arith, bit_or}
use package.amdhardware_kernel.Bus.{rd, wr, spin, Trace, Hw, ok}
use package.amdhardware_kernel.Bus.Regs.{reg_control, ctrl_flush_cache}
use package.amdhardware_kernel.Core.Polling.{IdleBefore, idle_of_poll, poll_of_idle}
use package.amdhardware_kernel.Pipeline.{pipeline_flush}

module _ (hw : Hw) where
  -- The bus at the first poll of `mgpu_pipeline_flush`.
  abbrev pub flushing : Trace → Trace
  flushing h = wr reg_control (bit_or (hw h reg_control) ctrl_flush_cache) ∷ rd reg_control ∷ h

  -- `mgpu_pipeline_flush` returns 0 exactly when one of the first 999 of its 1000 polls, each ten
  -- microseconds after the one before, reads the idle bit: at the last poll it no longer counts.
  pub pipeline_flush-ok :
      (h : Trace) → ((pipeline_flush hw h).0 ≡ ok) ↔ IdleBefore hw (spin 10) (flushing h) 1000
  unfolding pipeline_flush
  pipeline_flush-ok h = (
    (λ e. idle_of_poll hw (spin 10) 1000 (flushing h) (ground arith)),
    λ i. ground (arith, poll_of_idle hw (spin 10) 1000 i.0 (flushing h)),
  )
