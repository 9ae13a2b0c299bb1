-- ===== src/Ring/Submit/Tests.antt =====
-- Submissions to a ring of eight dwords, with a GPU that reports its head at 0.
use package.amdhardware_kernel.Bus.{enomem, rd, Hw, Io, etimedout, ok, err}
use package.amdhardware_kernel.Ring.{
  ring_destroy, ring_setup, ring_create, Ring, wait_space, ring_space_dwords, ring_wait_space,
  ring_write,
}
use package.amdhardware_kernel.Ring.Submit.{
  sync_poll, cmdq_init, cmdq_fini, cmdq_init_status, Submit, Kernel, submit_commands, fence_cmd,
  submit_copied, submit_dwords, submit_granted, submit_fence, submit_fence_granted, submit_kick,
}
use package.amdhardware_kernel.Bus.Regs.{reg_cmd_head, reg_cmd_tail}
use package.amdhardware_kernel.Common.{ℕ, ◌≡◌, refl, true, none, some, [], ◌∷◌, arith, replicate}
use package.amdhardware_kernel.Ring.Window.{IsRing}
use package.amdhardware_kernel.Ring.Submit.Invariant.{Kept, Appends, kicked, submit_commands-IsRing}
use package.amdhardware_kernel.Ring.Submit.Effect.{
  with_commands, with_fence, submit_commands-Appends,
}

abbrev ring : Ring
ring = record {
  vaddr = replicate 8 0;
  dma_addr = 0x1000;
  size = 32;
  head = 0;
  tail = 1;
  queue_id = 0;
  submitted_cmds = 1;
  completed_cmds = 0;
  enabled = true;
  last_head = 0;
  last_activity = 0;
}

abbrev stuck : Hw
stuck h r = 0

-- A draw of two dwords with a fence.
abbrev args : Submit
args = record {
  commands = 0x7000;
  cmd_size = 8;
  queue_id = 5;
  flags = 1;
  fence_addr = 0x9000;
  fence_value = 77;
}

-- No room, at once, if more than `limit` dwords are asked for.
abbrev limited : ℕ → Ring → Io ℕ
limited limit r h = (limit, h)

abbrev kern : Kernel
kern = record {
  pow2 = record { is_power_of_2 = λ n. true; roundup_pow_of_two = λ n. n };
  alloc = record { kzalloc = true; dma_alloc = none };
  kmalloc = true;
  user = some (11 ∷ 12 ∷ []);
}

ring-IsRing : IsRing 3 ring
ring-IsRing = omega arith

submit_commands-IsRing_example :
    Kept 3 0 (submit_commands stuck (ring_space_dwords stuck) kern args (some ring) []).0.1
submit_commands-IsRing_example =
    submit_commands-IsRing stuck 3 kern args ring [] ring-IsRing (λ h. omega arith)

submit_returns_ok :
    (submit_commands stuck (ring_space_dwords stuck) kern args (some ring) []).0.0 ≡ ok
unfolding submit_commands submit_copied submit_dwords submit_granted submit_fence
    submit_fence_granted submit_kick ring_wait_space wait_space ring_space_dwords ring_write
submit_returns_ok = refl

submit_commands-Appends_example :
    let mid = with_commands args (11 ∷ 12 ∷ []) ring in
    let first = ring_wait_space (ring_space_dwords stuck) ring 2 [] in
    Appends stuck 3 2 (11 ∷ 12 ∷ []) ring [] mid
    × Appends stuck 3 3 (fence_cmd args) mid first.1 (with_fence args mid)
    × ((submit_commands stuck (ring_space_dwords stuck) kern args (some ring) []).0.1
        ≡ some (kicked (with_fence args mid)))
submit_commands-Appends_example =
    submit_commands-Appends stuck 3 kern args (11 ∷ 12 ∷ []) ring [] ring-IsRing (λ h. omega arith)
      refl submit_returns_ok

first_wait : (ring_wait_space (limited 2) ring 2 []) ≡ (ok, [])
unfolding ring_wait_space wait_space
first_wait = refl

second_wait :
    (ring_wait_space
      (limited 2)
      (with_commands args (11 ∷ 12 ∷ []) ring)
      3
      (ring_wait_space (limited 2) ring 2 []).1).0
    ≡ err etimedout
unfolding ring_wait_space wait_space
second_wait = refl

-- The last poll finds the queue empty, and the count left is the one that means a timeout.
sync_poll_last : sync_poll stuck ring 0 [] ≡ (some 0, rd reg_cmd_tail ∷ rd reg_cmd_head ∷ [])
unfolding sync_poll
sync_poll_last = refl

fini_without_ring : cmdq_fini none [] ≡ (none, [])
unfolding cmdq_fini ring_destroy
fini_without_ring = refl

init_status : (cmdq_init kern.pow2 kern.alloc []).0.0 ≡ err enomem
unfolding cmdq_init cmdq_init_status ring_create ring_setup
init_status = refl
