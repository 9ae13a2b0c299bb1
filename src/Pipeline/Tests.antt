-- ===== src/Pipeline/Tests.antt =====
-- A flush of an idle device, and a pause that ends.
use package.amdhardware_kernel.Common.{◌≡◌, refl, [], ◌∷◌}
use package.amdhardware_kernel.Bus.{rd, wr, wake, stage_wait, Hw, ok}
use package.amdhardware_kernel.Bus.Regs.{reg_control, reg_status}
use package.amdhardware_kernel.Core.{poll_until}
use package.amdhardware_kernel.Pipeline.{pipeline_flush, pipeline_stall, pipeline_resume}

-- Every register reads 5: enabled, paused and idle.
abbrev paused : Hw
paused h r = 5

flushes :
    pipeline_flush paused []
    ≡ (ok, wr reg_control 5 ∷ rd reg_status ∷ wr reg_control 21 ∷ rd reg_control ∷ [])
unfolding pipeline_flush poll_until
flushes = refl

stalls : pipeline_stall paused [] ≡ (ok, wr reg_control 5 ∷ rd reg_control ∷ [])
unfolding pipeline_stall
stalls = refl

resumes : pipeline_resume paused [] ≡ (ok, wake stage_wait ∷ wr reg_control 1 ∷ rd reg_control ∷ [])
unfolding pipeline_resume
resumes = refl
