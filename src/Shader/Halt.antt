-- ===== src/Shader/Halt.antt =====
-- `mgpu_shader_handle_halt`, which stands in kernel/drivers/gpu/mgpu/mgpu_cmdq.c. The halted slot is
-- only logged.
use package.amdhardware_kernel.Common.{
  bit_and, ◌≡◌, Bool, not, ◌&&◌, Option, none, some, ◌∷◌, arith, if◌then◌else◌, not32, flag,
}
use package.amdhardware_kernel.Bus.{
  rd, wr, sleep, schedule_reset, capture, Trace, Hw, Io, ◌>>=◌, ◌>>◌, read, emit, write, unit_done,
}
use package.amdhardware_kernel.Bus.Regs.{
  reg_control, reg_status, reg_shader_pc, reg_shader_ctrl, ctrl_single_step, status_halted,
}
use package.amdhardware_kernel.Schedule.{reset_schedule}
use package.amdhardware_kernel.Shader.{ShaderMgr}

-- The part that tries to recover.
shader_recover : Hw → Bool → Io (Unit {0})
shader_recover hw in_reset = do
  control ← read hw reg_control
  write reg_control (bit_and control (not32 ctrl_single_step))
  write reg_shader_pc 0
  write reg_shader_ctrl 0
  emit (sleep 10)
  status ← read hw reg_status
  if flag status status_halted then reset_schedule in_reset else unit_done

pub shader_handle_halt : Hw → Bool → Option ShaderMgr → Io (Unit {0})
unfolding shader_recover
shader_handle_halt hw in_reset none = unit_done
shader_handle_halt hw in_reset (some mgr) = do
  shader_ctrl ← read hw reg_shader_ctrl
  shader_pc ← read hw reg_shader_pc
  status ← read hw reg_status
  emit capture
  if flag status status_halted then shader_recover hw in_reset else unit_done

-- The bus when the state of a halted shader has been captured.
abbrev pub captured : Trace → Trace
captured h = capture ∷ rd reg_status ∷ rd reg_shader_pc ∷ rd reg_shader_ctrl ∷ h

-- The bus after the attempt to recover, up to its last look at the status.
abbrev pub recovered : Hw → Trace → Trace
recovered hw h =
    sleep 10
    ∷ wr reg_shader_ctrl 0
    ∷ wr reg_shader_pc 0
    ∷ wr reg_control (bit_and (hw (captured h) reg_control) (not32 ctrl_single_step))
    ∷ rd reg_control
    ∷ captured h

-- The halt handler always captures the state first. It touches the device only if the status shows
-- the halt, and then schedules a reset exactly when, after the control, PC and shader control
-- registers were reset, the status still shows it and no reset is in progress.
pub shader_handle_halt_lem :
    (hw : Hw) (in_reset : Bool) (mgr : ShaderMgr) (h : Trace)
    → let halted = flag (hw (rd reg_shader_pc ∷ rd reg_shader_ctrl ∷ h) reg_status) status_halted in
      let again = flag (hw (recovered hw h) reg_status) status_halted in
      (shader_handle_halt hw in_reset (some mgr) h).1 ≡ (
        if halted
        then (if again && not in_reset
            then schedule_reset ∷ rd reg_status ∷ recovered hw h
            else rd reg_status ∷ recovered hw h)
        else captured h)
unfolding shader_handle_halt reset_schedule
shader_handle_halt_lem hw in_reset mgr h = ground arith
