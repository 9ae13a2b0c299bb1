-- ===== src/Fence/Tests.antt =====
-- A fence page at 0x10000 with two waits.
use package.amdhardware_kernel.Fence.{
  fence_setup, fence_fini, FenceWait, FenceContext, fence_init, fence_signaled, fence_emit,
  fence_process, mark_signaled,
}
use package.amdhardware_kernel.Common.{
  none, ℕ, ◌≤◌, ◌<◌, ◌≡◌, refl, ◌↔◌, true, false, some, List, [], ◌∷◌, arith, if◌then◌else◌, get_or,
  replicate,
}
use package.amdhardware_kernel.Bus.{wr, wake, fence_queue, Hw, einval, ok, err}
use package.amdhardware_kernel.Bus.Regs.{reg_fence_addr}
use mathlib.Core.List.{map}
use package.amdhardware_kernel.Fence.Signal.{IsContext, slot, fence_emit_lem}
use package.amdhardware_kernel.Fence.Pending.{reach, newly, fence_process_lem}

abbrev page : List ℕ
page = 0 ∷ 6 ∷ replicate 1022 0

abbrev two_waits : List FenceWait
two_waits =
    record { id = 1; value = 5; signaled = false }
    ∷ record { id = 2; value = 9; signaled = false }
    ∷ []

abbrev ctx : FenceContext
ctx = record { cpu_addr = page; dma_addr = 0x10000; seqno = 9; wait_list = two_waits }

ctx-IsContext : IsContext ctx
ctx-IsContext = record { page = refl; place = omega arith; number = omega arith }

abbrev at_seven : Hw
at_seven h r = 7

abbrev fresh : FenceContext
fresh = record { cpu_addr = replicate 1024 0; dma_addr = 0x10000; seqno = 0; wait_list = [] }

fresh_made : (fence_init true (some 0x10000) []).0.1 ≡ some fresh
unfolding fence_init fence_setup
fresh_made = refl

emits : fence_emit 0x10004 (some ctx) ≡ ok
unfolding fence_emit
emits = refl

fence_emit_lem_example :
    (slot ctx 0x10004 < 1024)
    × ((fence_signaled (some ctx) 0x10004 6 ≡ true) ↔ (6 ≤ get_or page (slot ctx 0x10004) 0))
fence_emit_lem_example = fence_emit_lem ctx 0x10004 6 ctx-IsContext emits

signaled :
    (fence_signaled (some ctx) 0x10004 6 ≡ true) × (fence_signaled (some ctx) 0x10004 7 ≡ false)
unfolding fence_signaled
signaled = (refl, refl)

emitted : (fence_emit 0x10FFC (some ctx) ≡ ok) × (fence_emit 0x11000 (some ctx) ≡ err einval)
unfolding fence_emit
emitted = (refl, refl)

fence_process_lem_example :
    ((fence_process at_seven (some ctx) []).0
      ≡ some (record ctx { wait_list = map (reach 7) two_waits }))
    × ((fence_process at_seven (some ctx) []).1 ≡ (
        let h' = (mark_signaled at_seven two_waits []).1 in
        if newly 7 two_waits then wake fence_queue ∷ h' else h'))
fence_process_lem_example = fence_process_lem at_seven 7 ctx [] (λ h. refl)

marked :
    map (reach 7) two_waits
    ≡ record { id = 1; value = 5; signaled = true }
      ∷ record { id = 2; value = 9; signaled = false }
      ∷ []
marked = refl

-- While it sleeps the wait 1 ends and another one, 4, comes.
abbrev others : FenceContext → FenceContext
others c = record c {
  wait_list =
      record { id = 2; value = 9; signaled = false }
      ∷ record { id = 3; value = 8; signaled = true }
      ∷ record { id = 4; value = 8; signaled = false }
      ∷ [];
}

finished : fence_fini (some ctx) [] ≡ (none, wake fence_queue ∷ wr reg_fence_addr 0 ∷ [])
unfolding fence_fini
finished = refl
