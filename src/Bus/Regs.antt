-- ===== src/Bus/Regs.antt =====
-- The registers, bits, opcodes and limits of kernel/drivers/gpu/mgpu/mgpu_regs.h.
use package.amdhardware_kernel.Common.{ℕ, ◌+◌, ◌*◌}

abbrev pub reg_version : ℕ
reg_version = 0x0000

abbrev pub reg_caps : ℕ
reg_caps = 0x0004

abbrev pub reg_control : ℕ
reg_control = 0x0008

abbrev pub reg_status : ℕ
reg_status = 0x000C

abbrev pub reg_scratch : ℕ
reg_scratch = 0x0010

abbrev pub reg_irq_status : ℕ
reg_irq_status = 0x0020

abbrev pub reg_irq_enable : ℕ
reg_irq_enable = 0x0024

abbrev pub reg_irq_ack : ℕ
reg_irq_ack = 0x0028

abbrev pub reg_cmd_base : ℕ
reg_cmd_base = 0x0040

abbrev pub reg_cmd_size : ℕ
reg_cmd_size = 0x0044

abbrev pub reg_cmd_head : ℕ
reg_cmd_head = 0x0048

abbrev pub reg_cmd_tail : ℕ
reg_cmd_tail = 0x004C

abbrev pub reg_cmd_doorbell : ℕ
reg_cmd_doorbell = 0x0050

abbrev pub reg_fence_addr : ℕ
reg_fence_addr = 0x0060

abbrev pub reg_fence_value : ℕ
reg_fence_value = 0x0064

abbrev pub reg_vertex_base : ℕ
reg_vertex_base = 0x0080

abbrev pub reg_vertex_count : ℕ
reg_vertex_count = 0x0084

abbrev pub reg_vertex_stride : ℕ
reg_vertex_stride = 0x0088

abbrev pub reg_shader_pc : ℕ
reg_shader_pc = 0x00A0

abbrev pub reg_shader_addr : ℕ
reg_shader_addr = 0x00A4

abbrev pub reg_shader_data : ℕ
reg_shader_data = 0x00A8

abbrev pub reg_shader_ctrl : ℕ
reg_shader_ctrl = 0x00AC

abbrev pub reg_instr_mem_size : ℕ
reg_instr_mem_size = 0x1000

abbrev pub reg_doorbell_base : ℕ
reg_doorbell_base = 0x2000

abbrev pub reg_doorbell : ℕ → ℕ
reg_doorbell n = reg_doorbell_base + n * 4

abbrev pub ctrl_enable : ℕ
ctrl_enable = 1

abbrev pub ctrl_reset : ℕ
ctrl_reset = 2

abbrev pub ctrl_pause : ℕ
ctrl_pause = 4

abbrev pub ctrl_single_step : ℕ
ctrl_single_step = 8

abbrev pub ctrl_flush_cache : ℕ
ctrl_flush_cache = 16

abbrev pub status_idle : ℕ
status_idle = 1

abbrev pub status_busy : ℕ
status_busy = 2

abbrev pub status_error : ℕ
status_error = 4

abbrev pub status_halted : ℕ
status_halted = 8

abbrev pub irq_cmd_complete : ℕ
irq_cmd_complete = 1

abbrev pub irq_error : ℕ
irq_error = 2

abbrev pub irq_fence : ℕ
irq_fence = 4

abbrev pub irq_queue_empty : ℕ
irq_queue_empty = 8

abbrev pub irq_shader_halt : ℕ
irq_shader_halt = 16

abbrev pub irq_perf_counter : ℕ
irq_perf_counter = 32

abbrev pub cap_multi_queue : ℕ
cap_multi_queue = 256

abbrev pub cmd_nop : ℕ
cmd_nop = 0

abbrev pub cmd_draw : ℕ
cmd_draw = 1

abbrev pub cmd_compute : ℕ
cmd_compute = 2

abbrev pub cmd_dma : ℕ
cmd_dma = 3

abbrev pub cmd_fence : ℕ
cmd_fence = 4

abbrev pub cmd_wait : ℕ
cmd_wait = 5

abbrev pub cmd_reg_write : ℕ
cmd_reg_write = 6

abbrev pub cmd_reg_read : ℕ
cmd_reg_read = 7

abbrev pub ring_size_min : ℕ
ring_size_min = 4096

abbrev pub ring_size_max : ℕ
ring_size_max = 262144

abbrev pub max_queues : ℕ
max_queues = 16

abbrev pub max_engines : ℕ
max_engines = 4
