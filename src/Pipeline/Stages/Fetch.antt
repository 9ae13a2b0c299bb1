-- ===== src/Pipeline/Stages/Fetch.antt =====
-- When `mgpu_pipeline_fetch_vertices` succeeds.
use package.amdhardware_kernel.Common.{◌≡◌, ◌≢◌, ◌↔◌, ◌∷◌, arith, bit_or}
use package.amdhardware_kernel.Bus.{rd, wr, spin, Trace, Hw, ok}
use package.amdhardware_kernel.Bus.Regs.{reg_control, ctrl_enable}
use package.amdhardware_kernel.Core.Polling.{EndedBefore, ended_of_poll, poll_of_ended}
use package.amdhardware_kernel.Pipeline.{PipelineMgr}
use package.amdhardware_kernel.Pipeline.Stages.{fetch_vertices, fetched, not_busy}

module _ (hw : Hw) where
  -- The bus at the first poll.
  abbrev pub fetch_begun : Trace → Trace
  fetch_begun h = wr reg_control (bit_or (hw h reg_control) ctrl_enable) ∷ rd reg_control ∷ h

  -- With vertices to fetch, `mgpu_pipeline_fetch_vertices` returns 0 exactly when one of the first 99 of
  -- its 100 polls of the status finds the device not busy; the vertices are counted as processed in
  -- either case, also those of a fetch that timed out.
  pub fetch_vertices_lem :
      (mgr : PipelineMgr) (h : Trace)
      → mgr.vertex_fetch.vertex_count ≢ 0
      → (((fetch_vertices hw mgr h).0.0 ≡ ok)
          ↔ EndedBefore hw not_busy (spin 10) (fetch_begun h) 100)
        × ((fetch_vertices hw mgr h).0.1 ≡ fetched mgr)
  unfolding fetch_vertices
  fetch_vertices_lem mgr h some_vertices = (
    (
      (λ e. ended_of_poll hw not_busy (spin 10) 100 (fetch_begun h) (ground arith)),
      λ i. ground (arith, poll_of_ended hw not_busy (spin 10) 100 i.0 (fetch_begun h)),
    ),
    ground arith,
  )
