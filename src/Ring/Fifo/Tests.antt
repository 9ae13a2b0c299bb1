-- ===== src/Ring/Fifo/Tests.antt =====
-- A ring of eight dwords that starts out empty.
use package.amdhardware_kernel.Common.{ℕ, refl, true, List, [], ◌∷◌, ◌++◌, arith, replicate}
use package.amdhardware_kernel.Ring.{Ring, ring_write, ring_space_dwords, write_dwords}
use package.amdhardware_kernel.Ring.Window.{window}
use package.amdhardware_kernel.Ring.Fifo.{
  System, Action, looks, writes, reads, write, read, Steps, stop, then, FifoRun, Holds,
}
use package.amdhardware_kernel.Ring.Fifo.Runs.{Steps-FifoRun, Steps-drain, reads_of}

abbrev ring : Ring
ring = record {
  vaddr = replicate 8 0;
  dma_addr = 0x1000;
  size = 32;
  head = 0;
  tail = 7;
  queue_id = 0;
  submitted_cmds = 1;
  completed_cmds = 0;
  enabled = true;
  last_head = 0;
  last_activity = 0;
}

abbrev empty : System
empty = record { head = 7; seen = 7; ring = ring }

empty-Holds : Holds 3 empty []
unfolding window
empty-Holds = record {
  valid = omega arith;
  head_in = omega arith;
  seen_in = omega arith;
  behind = omega arith;
  queue = refl;
}

-- Two dwords go in, round the end of the memory, and one comes out.
abbrev acts : List Action
acts = writes (5 ∷ 6 ∷ []) ∷ reads 5 ∷ []

abbrev later : System
later = record { head = 0; seen = 7; ring = ring_write ring (5 ∷ 6 ∷ []) }

run : Steps 3 empty acts later
unfolding ring_write write_dwords ring_space_dwords
run = then (write (5 ∷ 6 ∷ []) (omega arith)) (then (read (ground arith)) stop)

Steps-FifoRun_example : (q : List ℕ) × (FifoRun [] acts q × Holds 3 later q)
Steps-FifoRun_example = Steps-FifoRun 3 empty acts later [] empty-Holds run

Steps-drain_example :
    (t : System) × (Steps 3 empty (reads_of [] ++ (looks ∷ writes (8 ∷ 9 ∷ []) ∷ [])) t
      × Holds 3 t (8 ∷ 9 ∷ []))
Steps-drain_example = Steps-drain 3 empty [] (8 ∷ 9 ∷ []) empty-Holds (omega arith)
