-- ===== src/Health.antt =====
-- kernel/drivers/gpu/mgpu/mgpu_health.c: the health monitor, its works and its thread, and the
-- self-test. `jiffies` and `ktime_get` are functions of the history, asked anew at each place that
-- reads them; `msecs_to_jiffies(MGPU_HEARTBEAT_TIMEOUT_MS)` is an argument, since it depends on HZ.
pub mod Hang
pub mod Requests
pub mod Kept
pub mod Resets
pub mod Healthy
mod Tests
use package.amdhardware_kernel.Common.{
  ℕ, zero, suc, ◌+◌, ◌/◌, ◌%◌, ◌^◌, bit_and, Bool, true, false, not, ◌&&◌, ◌||◌, Option, none, some,
  List, [], ◌∷◌, ◌==◌, ltb, leb, if◌then◌else◌, u32, u64, sub64, not32, all_ones, flag,
}
use package.amdhardware_kernel.Bus.{
  Trace, Hw, Io, ◌>>=◌, ◌>>◌, pure, read, write, emit, sleep, unit_done, schedule_health,
  cancel_health, schedule_hang_check, cancel_hang_check, start_thread, stop_thread, enomem, eio,
  enodev, Status, ok, err,
}
use package.amdhardware_kernel.Bus.Regs.{
  reg_version, reg_status, reg_scratch, reg_cmd_head, reg_fence_value, status_busy, status_error,
  status_halted,
}
use package.amdhardware_kernel.Schedule.{reset_schedule}

abbrev pub health_check_interval_ms : ℕ
health_check_interval_ms = 1000

abbrev pub error_threshold : ℕ
error_threshold = 10

-- `struct mgpu_health_monitor` without the temperature, which nothing uses
pub record Monitor : Type 0 where
  pub monitoring_enabled : Bool
  pub check_count : ℕ
  pub error_count : ℕ
  pub hang_count : ℕ
  pub recovery_count : ℕ
  pub heartbeat_misses : ℕ
  pub last_check : ℕ
  pub last_error : ℕ
  pub last_hang : ℕ
  pub uptime_start : ℕ
  pub consecutive_errors : ℕ
  pub last_fence_value : ℕ
  pub last_cmd_head : ℕ
  pub last_activity : ℕ
  pub heartbeat_counter : ℕ
  pub last_heartbeat : ℕ

-- `struct mgpu_error_info` without its texts
pub record ErrorInfo : Type 0 where
  pub code : ℕ
  pub recoverable : Bool

abbrev pub error_none : ErrorInfo
error_none = record { code = 0; recoverable = false }

abbrev pub mgpu_error_table : List ErrorInfo
mgpu_error_table =
    error_none
    ∷ record { code = 1; recoverable = true }
    ∷ record { code = 2; recoverable = true }
    ∷ record { code = 3; recoverable = true }
    ∷ record { code = 4; recoverable = true }
    ∷ record { code = 5; recoverable = true }
    ∷ []

pub find_error : ℕ → List ErrorInfo → ErrorInfo
find_error error_code [] = error_none
find_error error_code (info ∷ rest) =
    if info.code == error_code then info else find_error error_code rest

pub get_error_info : ℕ → ErrorInfo
unfolding find_error
get_error_info error_code = find_error error_code mgpu_error_table

-- `time_after(a, b)`: the difference `b - a` is negative as a signed word.
abbrev pub time_after : ℕ → ℕ → Bool
time_after a b = leb (2 ^ 63) (sub64 b a)

-- The check of the command head: whether it hangs. `now` is what `jiffies` says then.
abbrev pub head_progress : ℕ → ℕ → ℕ → Monitor → Bool × Monitor
head_progress now timeout cmd_head m =
    if cmd_head == m.last_cmd_head
    then (time_after now (u64 (m.last_activity + timeout)), m)
    else (false, record m { last_cmd_head = cmd_head; last_activity = now })

abbrev pub fence_progress : ℕ → ℕ → ℕ → Bool → Monitor → Bool × Monitor
fence_progress now timeout fence_value hung m =
    if fence_value == m.last_fence_value
    then (hung || time_after now (u64 (m.last_activity + timeout)), m)
    else (hung, record m { last_fence_value = fence_value; last_activity = now })

abbrev pub count_hang : ℕ → Bool → Monitor → Monitor
count_hang now hung m =
    if hung then record m { hang_count = u64 (m.hang_count + 1); last_hang = now } else m

-- The branch for the error bit, and what it writes.
abbrev pub count_error : ℕ → Monitor → Monitor
count_error now m = record m {
  error_count = u64 (m.error_count + 1);
  last_error = now;
  consecutive_errors = u32 (m.consecutive_errors + 1);
}

pub clear_error : ℕ → Io (Unit {0})
unfolding get_error_info
clear_error status =
    if (get_error_info (status / 2 ^ 16 % 2 ^ 8)).recoverable
    then write reg_status (bit_and status (not32 status_error))
    else unit_done

module _ (hw : Hw) (jiffies ktime : Trace → ℕ) where
  pub health_check_heartbeat : Monitor → Io (Bool × Monitor)
  health_check_heartbeat m h =
      let counter = u32 (m.heartbeat_counter + 1) in
      let (done, h₁) = write reg_scratch counter h in
      let (scratch, h₂) = read hw reg_scratch h₁ in
      let misses =
        if scratch == counter then m.heartbeat_misses else u64 (m.heartbeat_misses + 1) in
      (
        (
          scratch == counter,
          record m {
            heartbeat_counter = counter;
            heartbeat_misses = misses;
            last_heartbeat = jiffies h₂;
          },
        ),
        h₂,
      )

  pub health_check_hang : ℕ → Monitor → Io (Bool × Monitor)
  health_check_hang timeout m h =
      let (status, h₁) = read hw reg_status h in
      let (cmd_head, h₂) = read hw reg_cmd_head h₁ in
      let (stuck, m₁) = head_progress (jiffies h₂) timeout cmd_head m in
      let (fence_value, h₃) = read hw reg_fence_value h₂ in
      let (hung, m₂) = fence_progress (jiffies h₃) timeout fence_value stuck m₁ in
      if flag status status_busy
      then ((hung, count_hang (ktime h₃) hung m₂), h₃)
      else ((false, m), h₁)

  pub health_check_errors : Monitor → Io (ℕ × Monitor)
  unfolding clear_error
  health_check_errors m h =
      let (status, h₁) = read hw reg_status h in
      let halted = if flag status status_halted then 1 else 0 in
      if flag status status_error
      then ((1 + halted, count_error (ktime h₁) m), (clear_error status h₁).1)
      else ((halted, record m { consecutive_errors = 0 }), h₁)

  -- The end of `mgpu_health_check`; `in_reset` is the flag of the reset code.
  pub health_reset : Bool → Bool → Monitor → Io Monitor
  health_reset in_reset needs_reset m =
      if needs_reset
      then (do
        reset_schedule in_reset
        pure (record m { recovery_count = u64 (m.recovery_count + 1) }))
      else pure m

  -- `mgpu_health_check`
  pub health_check : Bool → ℕ → Monitor → Io Monitor
  unfolding health_reset health_check_heartbeat health_check_errors health_check_hang
  health_check in_reset timeout m h =
      let begun = record m { check_count = u64 (m.check_count + 1); last_check = ktime h } in
      let ((alive, m₁), h₁) = health_check_heartbeat begun h in
      let ((error_count, m₂), h₂) = health_check_errors m₁ h₁ in
      let ((hung, m₃), h₃) = health_check_hang timeout m₂ h₂ in
      let too_many = ltb 0 error_count && leb error_threshold m₂.consecutive_errors in
      health_reset in_reset (not alive || too_many || hung) m₃ h₃

  pub health_work_func : Bool → ℕ → Monitor → Io Monitor
  unfolding health_check
  health_work_func in_reset timeout m =
      if m.monitoring_enabled
      then (do m' ← health_check in_reset timeout m; emit schedule_health; pure m')
      else pure m

  pub hang_check_work_func : Bool → ℕ → Monitor → Io Monitor
  hang_check_work_func in_reset timeout m =
      if m.monitoring_enabled
      then (do
        (hung, m') ← health_check_hang timeout m
        if hung then reset_schedule in_reset else unit_done
        emit schedule_hang_check
        pure m')
      else pure m

  -- A round of `mgpu_monitor_thread`
  pub monitor_round : Bool → ℕ → Monitor → Io Monitor
  monitor_round in_reset timeout m = do
    m' ← if m.monitoring_enabled then health_check in_reset timeout m else pure m
    emit (sleep health_check_interval_ms)
    pure m'

  -- `mgpu_health_check_now`
  pub health_check_now : Bool → ℕ → Option Monitor → Io (Status × Option Monitor)
  health_check_now in_reset timeout none = pure (err enodev, none)
  health_check_now in_reset timeout (some m) = do
    m' ← health_check in_reset timeout m
    pure (ok, some m')

-- The monitor of `mgpu_health_init` with the answers of the clocks
abbrev pub new_monitor : ℕ → ℕ → Monitor
new_monitor jiffies ktime = record {
  monitoring_enabled = true;
  check_count = 0;
  error_count = 0;
  hang_count = 0;
  recovery_count = 0;
  heartbeat_misses = 0;
  last_check = 0;
  last_error = 0;
  last_hang = 0;
  uptime_start = ktime;
  consecutive_errors = 0;
  last_fence_value = 0;
  last_cmd_head = 0;
  last_activity = jiffies;
  heartbeat_counter = 0;
  last_heartbeat = 0;
}

-- `mgpu_health_init` with the answers of `kzalloc` and `kthread_create`
pub health_init : Bool → Status → ℕ → ℕ → Io (Status × Option Monitor)
health_init false thread jiffies ktime = pure (err enomem, none)
health_init true (err e) jiffies ktime = pure (err e, none)
health_init true ok jiffies ktime = do
  emit start_thread
  emit schedule_health
  emit schedule_hang_check
  pure (ok, some (new_monitor jiffies ktime))

pub health_fini : Option Monitor → Io (Option Monitor)
health_fini none = pure none
health_fini (some m) = do emit cancel_health; emit cancel_hang_check; emit stop_thread; pure none

-- The first test of `mgpu_run_selftest`: whether all patterns were read back.
pub test_patterns : Hw → List ℕ → Io Bool
test_patterns hw [] = pure true
test_patterns hw (pattern ∷ rest) = do
  write reg_scratch pattern
  readback ← read hw reg_scratch
  others ← test_patterns hw rest
  pure (readback == pattern && others)

abbrev pub test_pattern : List ℕ
test_pattern = 0xDEADBEEF ∷ 0xCAFEBABE ∷ 0x12345678 ∷ 0x87654321 ∷ []

pub run_selftest : Hw → Io Status
unfolding test_patterns
run_selftest hw = do
  registers ← test_patterns hw test_pattern
  readback ← read hw reg_version
  pure (if registers && not (readback == 0 || readback == all_ones) then ok else err eio)
