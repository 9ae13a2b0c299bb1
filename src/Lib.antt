-- ===== src/Lib.antt =====
-- The MGPU kernel driver (kernel/drivers/gpu/mgpu/), its core: the command ring and the submission
-- of commands to it, the validation of command buffers, fences, shader slots, buffer objects,
-- interrupts, the start, the test and the reset of the device, and the parts that watch over it:
-- the job scheduler, the rendering pipeline, the AXI transport, the health monitor and power
-- management.
--
-- How the parts interact. User commands come as a buffer, which mgpu_submit_validated copies,
-- checks (Validate) and hands to mgpu_submit_commands, which writes them into the ring that the GPU
-- reads (Ring). The GPU reports completed commands, errors, fences and halted shaders by interrupts
-- (Irq), whose tasklet calls the parts' handlers; the handlers of errors and halts ask for a reset
-- (Schedule), and the reset work stops the ring, resets the hardware, starts it again and hands the
-- ring back (Reset, Core). Shaders are loaded into instruction memory by slots (Shader). Buffer
-- objects are named by handles, found by mmap offsets and freed with their last reference (Gem).
-- The scheduler keeps jobs in lists by queue and priority and submits those that are ready to the
-- ring (Sched). A draw configures the vertex fetch and runs the stages of a frame one after the
-- other (Pipeline). The AXI transport moves memory by transactions that an interrupt or a timer
-- ends (Axi). The health monitor reads the status on a timer and asks for a reset (Health); a
-- suspend stops the ring and the interrupts and takes the clocks away, and a resume brings all back
-- (Pm). User space also starts render jobs on buffer objects (Calls), memory is copied by a command
-- in the ring (Dma), and a halted shader has the state of the device dumped (Coredump).
--
-- The files. A module stands for a part, and its child modules for what is proved of it; a Tests
-- module runs the definitions on concrete devices. Functions are called as in the source, without
-- the prefix mgpu_.
--   Common    numbers, Booleans, options and lists that all parts share; 32- and 64-bit words
--   Bus       mgpu_internal.h (mgpu_read, mgpu_write), mgpu_regs.h (Bus/Regs)
--   Schedule  mgpu_reset_schedule of mgpu_reset.c
--   Core      mgpu_core.c: reset, scratch test, idle wait, error handler; Core/Init: start and stop
--   Ring      mgpu_cmdq.c: ring, space, write, doorbell; Ring/Submit: mgpu_submit_commands, init and
--             fini; Ring/Power: suspend, resume, stop and the completion interrupt; Ring/Fifo: the
--             driver and the GPU on one ring
--   Klist     the kernel's circular lists, as mgpu_sched.c uses them
--   Sched     mgpu_sched.c: jobs and dependencies; Sched/Running: what runs and ends them;
--             Sched/Calls: submission, waits, cancellation, timeouts; Sched/Setup: start and end
--   Health    mgpu_health.c
--   Pm        mgpu_pm.c
--   Axi       mgpu_axi.c; Axi/Transfer: reads, writes and DMA; Axi/Setup: start and end
--   Pipeline  mgpu_pipeline.c: state, configuration, flush; Pipeline/Stages: the stages of a frame;
--             Pipeline/Frame: mgpu_pipeline_execute and draw; Pipeline/Frame/Others: other threads
--   Fence     mgpu_fence.c
--   Shader    mgpu_shader.c; Shader/Halt: mgpu_shader_handle_halt of mgpu_cmdq.c
--   Validate  mgpu_uapi.c: the validators and mgpu_validate_commands; Validate/Checked:
--             mgpu_submit_validated
--   Calls     mgpu_uapi.c: contexts, capabilities, performance counters, barriers and markers;
--             Calls/Render: mgpu_execute_render; Calls/Sync: mgpu_create_sync_object
--   Dma, Mmio mgpu_dma.c; the access helpers of mgpu_mmio.h
--   Coredump  mgpu_coredump.c: the layout of a dump; Coredump/Capture: what it
--             captures, in the structures of Coredump/Records
--   Irq       mgpu_irq.c; Irq/Tasklet: mgpu_irq_tasklet_func
--   Reset     mgpu_reset.c
--   Gem       mgpu_gem.c: handles and references; Gem/Offsets: the tree of mmap offsets;
--             Gem/Memory: mgpu_bo_create; Gem/Locking: puts under bo_lock;
--             Gem/Cleanup: access of the CPU, mgpu_gem_cleanup
--
-- The device is not driver code. It is any function from all that went over the bus before, and a
-- register, to the value read; a computation takes the history of the bus and returns the longer
-- one, the newest event first. Delays, wake-ups and calls of kernel services are events of that
-- history; so is mgpu_coredump_capture where the halt handler calls it. What allocators,
-- copy_from_user, request_irq, idr_alloc, remap_pfn_range and the sleep of wait_event answer are
-- arguments, and so are the kernel's rounding to powers of two (Ring.Pow2, with its documented
-- behaviour Ring.Create.Rounds) and its red-black tree and alignment (Gem.Offsets.RbTree, with
-- Gem.Offsets.Alloc.Balances). A held lock is a function that runs as a whole; what others do where
-- it is dropped is an argument: in the sleep of mgpu_wait_fence the new list and, between two
-- stages of mgpu_pipeline_execute, the calls that other threads make (Pipeline.Frame.Others).
-- mgpu_pipeline_draw takes no lock, and draws that come in the middle of a stage are not modelled;
-- neither are calls of other threads during mgpu_execute_render. The argument structures and flags
-- of the calls in Calls, which the repository does not define, are records of the fields used and
-- Booleans. A pointer to a freed buffer object is used only in a run that has no result. The calls
-- of the clock framework answer as a parameter says (Pm.Clk, with its documented behaviour
-- Pm.Rate.Rates). jiffies and ktime_get are functions of the history for the health monitor, asked
-- at each place that reads them, and elsewhere an argument, one answer for a call. The GPU's side of
-- the ring (Ring.Fifo.Step) is an assumption on the hardware: it reads the dword at its head and moves
-- the head on by one. The scheduler's lists are memory, a map of links by address, where the node
-- of a job is the job's address and heads stand at their offsets in the structure; list_del leaves
-- the poison of linux/poison.h, and its use is a fault (Klist.Run). The locks of the scheduler are
-- held by whole functions, and another thread gets its turn between them. A transaction of the AXI
-- transport is a variable of the call that waits for it, and a use of its address after the return
-- is a fault; the interrupts, the timer and the reset of the statistics during the wait are an
-- argument (Axi.Transfer.AxiEvent). A suspend, a resume or the removal of the transport in the middle
-- of a wait is not modelled. The lock bo_lock and the list node of a buffer object are modelled where
-- they stop a call: in Gem/Locking a thread that takes the lock twice waits for ever, and list_del of
-- a node that is off its list is a fault; elsewhere an object is on its list and the lock is free.
--
-- Bounds and fuel. Counted loops (100 and 1000 polls, 1000 waits for space) recurse on their count,
-- which ends as in the source at one below zero. Waits up to a deadline recurse on the number of
-- rounds that start before it, an argument. The loop of mgpu_validate_commands recurses on fuel,
-- and mgpu_validate_commands gives it the number of dwords: a round takes at least one. The loop of
-- mgpu_pipeline_execute has five rounds, one for each of its four stages and one to find that it is
-- done. The loop over the chunks of a DMA gets one round more than it has bytes, and a chunk has at
-- least four. The loops over the scheduler's lists recurse on fuel as well, with the outcome
-- `unending` where it is not enough: on a well-formed list more rounds than entries are enough.
-- The loop of mgpu_gem_cleanup over the references of an object recurses on a number of rounds, an
-- argument: as many as the object has references are enough.
-- Unsigned arithmetic is taken modulo 2^32 or 2^64 where the source's type makes it wrap; counts of
-- references and of uses do not wrap.
--
-- Not modelled. Messages in the kernel log and memory barriers have no effect on the state
-- modelled. Debugfs and the platform and DRM glue are left out; of mgpu_coredump.c the strings, the
-- bytes of the structures and the printing of a dump, of mgpu_sched.c kfree, the idr that nothing
-- uses and the completion work without a handler, of mgpu_health.c the temperature, of mgpu_axi.c
-- the contents of the buffers, of mgpu_dma.c the direction and the attributes of DMA memory, of
-- mgpu_pm.c the regulators, which nothing uses either. The repository's hardware description, its
-- software tools and its user-space library are other programs.
pub mod Common
pub mod Bus
pub mod Calls
pub mod Dma
pub mod Mmio
pub mod Coredump
pub mod Schedule
pub mod Core
pub mod Ring
pub mod Fence
pub mod Shader
pub mod Validate
pub mod Irq
pub mod Reset
pub mod Klist
pub mod Sched
pub mod Health
pub mod Pm
pub mod Pipeline
pub mod Axi
pub mod Gem
