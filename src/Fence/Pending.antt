-- ===== src/Fence/Pending.antt =====
-- The list of pending waits: the interrupt that marks them, and the wait that goes on it and off.
use package.amdhardware_kernel.Common.{
  ℕ, ◌≡◌, refl, ◌≢◌, Bool, false, not, ◌&&◌, ◌||◌, some, List, [], ◌∷◌, ◌++◌, arith, leb, ◌==◌,
  if◌then◌else◌,
}
use package.amdhardware_kernel.Bus.{fence_queue, rd, wake, Trace, Hw}
use package.amdhardware_kernel.Bus.Regs.{reg_fence_value}
use mathlib.Core.List.{map}
use package.amdhardware_kernel.Fence.{FenceWait, FenceContext, mark_signaled, fence_process}

-- A wait after the hardware has reached `v`.
abbrev pub reach : ℕ → FenceWait → FenceWait
reach v w = record w { signaled = w.signaled || leb w.value v }

-- Whether a wait is signaled by the hardware reaching `v`.
pub newly : ℕ → List FenceWait → Bool
newly v [] = false
newly v (w ∷ ws) = (not w.signaled && leb w.value v) || newly v ws

marks :
    (hw : Hw) (v : ℕ) (ws : List FenceWait) (h : Trace)
    → ((h : Trace) → hw h reg_fence_value ≡ v)
    → (mark_signaled hw ws h).0 ≡ (map (reach v) ws, newly v ws)
unfolding mark_signaled newly
marks hw v [] h same = refl
marks hw v (w ∷ ws) h same =
    ground (arith, same h, marks hw v ws h, marks hw v ws (rd reg_fence_value ∷ h))

-- While the hardware's fence value is `v`, the fence interrupt marks exactly the pending waits whose
-- value `v` has reached, keeps their order and every wait that was marked before, and wakes the
-- waiters as its last act exactly when it marked one.
pub fence_process_lem :
    (hw : Hw) (v : ℕ) (ctx : FenceContext) (h : Trace)
    → ((h : Trace) → hw h reg_fence_value ≡ v)
    → ((fence_process hw (some ctx) h).0
        ≡ some (record ctx { wait_list = map (reach v) ctx.wait_list }))
      × ((fence_process hw (some ctx) h).1 ≡ (
          let h' = (mark_signaled hw ctx.wait_list h).1 in
          if newly v ctx.wait_list then wake fence_queue ∷ h' else h'))
unfolding fence_process
fence_process_lem hw v ctx h same = (
  ground (arith, marks hw v ctx.wait_list h same),
  ground (arith, marks hw v ctx.wait_list h same),
)

abbrev pub ids : List FenceWait → List ℕ
ids [] = []
ids (w ∷ ws) = w.id ∷ ids ws

-- No entry of the list is at the address `i`.
abbrev pub Absent : ℕ → List ℕ → Type 0
Absent i [] = Unit {0}
Absent i (j ∷ js) = (j ≢ i) × Absent i js

remove_id : ℕ → List ℕ → List ℕ
remove_id i [] = []
remove_id i (j ∷ js) = let rest = remove_id i js in if j == i then rest else j ∷ rest

-- The context when the wait has put its entry on the list.
abbrev pub joined : ℕ → ℕ → FenceContext → FenceContext
joined id fence_value ctx = record ctx {
  wait_list = ctx.wait_list ++ (record { id = id; value = fence_value; signaled = false } ∷ []);
}
