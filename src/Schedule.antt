-- ===== src/Schedule.antt =====
-- `mgpu_reset_schedule` of kernel/drivers/gpu/mgpu/mgpu_reset.c, which most parts of the driver call.
use package.amdhardware_kernel.Common.{Bool, if◌then◌else◌}
use package.amdhardware_kernel.Bus.{schedule_reset, Io, emit, unit_done}

-- `in_reset` is the flag of that name.
unfoldable pub reset_schedule : Bool → Io (Unit {0})
reset_schedule in_reset = if in_reset then unit_done else emit schedule_reset
