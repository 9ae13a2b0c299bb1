-- ===== src/Reset/Work.antt =====
-- What the reset work leaves on each of its paths.
use package.amdhardware_kernel.Common.{
  ◌+◌, ◌≡◌, Bool, true, false, Option, [], ◌∷◌, arith, if◌then◌else◌, take, u32,
}
use package.amdhardware_kernel.Bus.{reset_wait, wake, Trace, Hw, ok, err}
use package.amdhardware_kernel.Core.Init.{core_init}
use package.amdhardware_kernel.Ring.{Ring}
use package.amdhardware_kernel.Ring.Power.{cmdq_resume}
use package.amdhardware_kernel.Reset.{
  ResetWork, WorkEnv, reset_hw, work_out, work_restored, work_reset, work_stop, reset_work_handler,
}

module _ (hw : Hw) (env : WorkEnv) where
  -- Both steps that can fail have succeeded.
  pub reset_succeeds : Option Ring → Trace → Bool
  reset_succeeds cmd_ring h =
      let h₁ = (work_stop hw env cmd_ring h).1 in
      let (status, h₂) = reset_hw hw h₁ in
      let (init, _) = core_init hw env.debug env.profiling env.registered h₂ in
      elim status [ ok ↦ elim init.0 [ ok ↦ true | err e ↦ false ] | err e ↦ false ]

  -- On every path the work ends by waking all who wait for it, with no reset in progress; it counts a
  -- reset exactly when the hardware reset and the new start both succeeded, and only then it hands
  -- the queue back: otherwise the ring stays as the stop left it.
  pub reset_work_handler_lem :
      (w : ResetWork) (h : Trace)
      → let done = reset_work_handler hw env w h in
        let ring = (work_stop hw env w.cmd_ring h).0 in
        let success = reset_succeeds w.cmd_ring h in
        (done.0.reset.in_reset ≡ false)
        × (done.0.reset.reset_count
            ≡ (if success then u32 (w.reset.reset_count + 1) else w.reset.reset_count))
        × (done.0.cmd_ring ≡ (if success then (cmdq_resume ring h).0 else ring))
        × (take 1 done.1 ≡ wake reset_wait ∷ [])
  unfolding reset_work_handler work_reset work_restored work_out reset_succeeds cmdq_resume
  reset_work_handler_lem w h = (ground arith, ground arith, ground arith, ground arith)
