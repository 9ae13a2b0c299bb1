-- ===== src/Ring/Tests.antt =====
-- A ring of four dwords, and a GPU that reports its head at 0.
mod Rounding
use package.amdhardware_kernel.Ring.{
  ring_destroy, Ring, Alloc, ring_create, ring_space_bytes, ring_space_dwords, ring_wait_space,
  ring_write, queue_reg,
}
use package.amdhardware_kernel.Bus.{wr, space_queue, rd, wake, Hw, ◌>>=◌, ◌>>◌, ok}
use package.amdhardware_kernel.Bus.Regs.{
  reg_cmd_base, reg_cmd_size, reg_cmd_head, reg_cmd_tail, reg_fence_addr, ring_size_min,
  ring_size_max,
}
use package.amdhardware_kernel.Common.{
  ℕ, ◌+◌, ◌≤◌, ◌≡◌, refl, ◌↔◌, true, false, none, some, [], ◌∷◌, ◌++◌, arith, replicate,
}
use Rounding.{pow2, pow2-Rounds}
use package.amdhardware_kernel.Ring.Window.{IsRing, pending, contents, ring_write-contents}
use package.amdhardware_kernel.Ring.Space.{
  ring_wait_space-ok, ring_space_dwords-add-pending, RoomAt,
}
use package.amdhardware_kernel.Ring.Overrun.{ring_wait_space-overrun}
use package.amdhardware_kernel.Ring.Create.{ring_create-IsRing}
use package.amdhardware_kernel.Ring.Power.{
  cmdq_suspend, cmdq_resume, cmdq_stop, drained, cmdq_suspend_resume, cmdq_stop-fence_addr,
}
use package.amdhardware_kernel.Core.{core_wait_idle}

abbrev small : Ring
small = record {
  vaddr = 7 ∷ 0 ∷ 0 ∷ 0 ∷ [];
  dma_addr = 0x1000;
  size = 16;
  head = 0;
  tail = 1;
  queue_id = 1;
  submitted_cmds = 1;
  completed_cmds = 0;
  enabled = true;
  last_head = 3;
  last_activity = 0;
}

abbrev stuck : Hw
stuck h r = 0

small-IsRing : IsRing 2 small
small-IsRing = omega arith

ring_write-contents_example :
    (contents 2 0 (ring_write small (8 ∷ 9 ∷ [])) ≡ contents 2 0 small ++ (8 ∷ 9 ∷ []))
    × IsRing 2 (ring_write small (8 ∷ 9 ∷ []))
    × (pending 2 0 (ring_write small (8 ∷ 9 ∷ [])) ≡ pending 2 0 small + 2)
ring_write-contents_example =
    ring_write-contents 2 0 small (8 ∷ 9 ∷ []) small-IsRing (omega arith) (omega arith)

ring_write_wraps :
    ring_write (record small { tail = 3 }) (8 ∷ 9 ∷ [])
    ≡ record small { vaddr = 9 ∷ 0 ∷ 0 ∷ 8 ∷ []; tail = 1 }
unfolding ring_write
ring_write_wraps = refl

ring_wait_space-ok_example :
    ((ring_wait_space (ring_space_dwords stuck) small 2 []).0 ≡ ok)
    ↔ ((k : ℕ) × (k ≤ 1000) × RoomAt (ring_space_dwords stuck) small 2 [] k)
ring_wait_space-ok_example = ring_wait_space-ok (ring_space_dwords stuck) small 2 []

ring_wait_space-overrun_example :
    ((ring_wait_space (ring_space_bytes stuck) small 3 []).0 ≡ ok)
    × (pending 2 0 (ring_write small (8 ∷ 9 ∷ 10 ∷ [])) ≡ 0)
ring_wait_space-overrun_example =
    ring_wait_space-overrun stuck 2 small [] (8 ∷ 9 ∷ 10 ∷ []) small-IsRing (omega arith)
      (omega arith)

abbrev alloc : Alloc
alloc = record { kzalloc = true; dma_alloc = some 0x8000 }

-- What a request of 5000 bytes for queue 3 gives.
abbrev made : Ring
made = record {
  vaddr = replicate 2048 0;
  dma_addr = 0x8000;
  size = 8192;
  head = 0;
  tail = 0;
  queue_id = 3;
  submitted_cmds = 0;
  completed_cmds = 0;
  enabled = false;
  last_head = 0;
  last_activity = 0;
}

ring_create-IsRing_example :
    ((k : ℕ) × IsRing k made × (made.tail ≡ 0) × (made.queue_id ≡ 3))
    × (5000 ≤ made.size)
    × (made.size ≤ ring_size_max)
    × (ring_size_min ≤ 5000)
unfolding ring_create pow2
ring_create-IsRing_example = ring_create-IsRing pow2 alloc 5000 3 [] made pow2-Rounds refl

ring_create_too_small : ring_create pow2 alloc 4095 0 [] ≡ (none, [])
unfolding ring_create
ring_create_too_small = refl

destroyed : ring_destroy (some small) [] ≡ (tt, wr 0x54 0 ∷ wr 0x50 0 ∷ [])
unfolding ring_destroy
destroyed = refl
