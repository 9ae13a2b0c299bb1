-- ===== src/Health/Healthy.antt =====
-- The health check and the self-test on a device that works.
use package.amdhardware_kernel.Common.{
  ℕ, ◌+◌, ◌≡◌, ◌≢◌, refl, Bool, true, false, List, [], ◌∷◌, arith, all_ones, u32, flag,
}
use package.amdhardware_kernel.Bus.{rd, wr, Trace, Hw, ok}
use package.amdhardware_kernel.Bus.Regs.{
  reg_version, reg_status, reg_scratch, status_busy, status_error, status_halted,
}
use package.amdhardware_kernel.Health.{
  Monitor, test_pattern, test_patterns, run_selftest, health_check_heartbeat, health_check_errors,
  health_check_hang, health_reset, health_check,
}

-- The scratch register keeps what was written, and the status shows neither work nor an error nor a halt.
pub record Working (hw : Hw) : Type 0 where
  pub keeps : (v : ℕ) (h : Trace) → hw (wr reg_scratch v ∷ h) reg_scratch ≡ v
  pub idle : (h : Trace) → flag (hw h reg_status) status_busy ≡ false
  pub no_error : (h : Trace) → flag (hw h reg_status) status_error ≡ false
  pub not_halted : (h : Trace) → flag (hw h reg_status) status_halted ≡ false
  pub version : (h : Trace) → hw h reg_version ≢ 0
  pub answers : (h : Trace) → hw h reg_version ≢ all_ones

module _ (hw : Hw) (w : Working hw) where
  test_patterns_pass : (ps : List ℕ) (h : Trace) → (test_patterns hw ps h).0 ≡ true
  unfolding test_patterns
  test_patterns_pass [] h = refl
  test_patterns_pass (p ∷ ps) h =
      ground (arith, w.keeps p h, test_patterns_pass ps (rd reg_scratch ∷ wr reg_scratch p ∷ h))

  pub run_selftest-Working : (h : Trace) → (run_selftest hw h).0 ≡ ok
  unfolding run_selftest
  run_selftest-Working h = ground (
    arith,
    test_patterns_pass test_pattern h,
    w.version (test_patterns hw test_pattern h).1,
    w.answers (test_patterns hw test_pattern h).1,
  )

  module _ (jiffies ktime : Trace → ℕ) (in_reset : Bool) (timeout : ℕ) where
    -- On a device whose scratch register keeps what is written and whose status shows neither
    -- work, nor an error, nor a halt, mgpu_health_check asks for no reset: it counts no recovery
    -- and no miss of the heartbeat, sets the count of errors in a row to 0, and does nothing on
    -- the bus but the heartbeat and two reads of the status.
    pub health_check-Working :
        (m : Monitor) (h : Trace)
        → (let out = health_check hw jiffies ktime in_reset timeout m h in
            (out.0.recovery_count ≡ m.recovery_count)
            × (out.0.heartbeat_misses ≡ m.heartbeat_misses)
            × (out.0.consecutive_errors ≡ 0)
            × (out.1
                ≡ rd reg_status
                  ∷ rd reg_status
                  ∷ rd reg_scratch
                  ∷ wr reg_scratch (u32 (m.heartbeat_counter + 1))
                  ∷ h))
    unfolding health_check health_check_heartbeat health_check_errors health_check_hang health_reset
    health_check-Working m h =
        let wrote = wr reg_scratch (u32 (m.heartbeat_counter + 1)) ∷ h in
        ground (
          arith,
          w.keeps (u32 (m.heartbeat_counter + 1)) h,
          w.no_error (rd reg_scratch ∷ wrote),
          w.not_halted (rd reg_scratch ∷ wrote),
          w.idle (rd reg_status ∷ rd reg_scratch ∷ wrote),
        )
