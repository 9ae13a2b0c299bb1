-- ===== src/Axi.antt =====
-- kernel/drivers/gpu/mgpu/mgpu_axi.c: the AXI controller, its transactions and its timer. A transaction
-- is a variable of the call that waits for it; a pointer to it is its address, and what uses the pointer
-- after the call has returned is a fault, `none`. The buffers and what they hold are left out.
pub mod Beats
pub mod Transfer
pub mod Setup
use package.amdhardware_kernel.Common.{
  ℕ, ◌+◌, ◌-◌, ◌/◌, ◌%◌, Bool, true, false, Option, none, some, ltb, leb, if◌then◌else◌, u32, u64,
}
use package.amdhardware_kernel.Bus.{
  Hw, Io, ◌>>=◌, ◌>>◌, pure, read, unit_done, etimedout, eio, efault, Status, ok, err,
}
use package.amdhardware_kernel.Bus.Regs.{reg_status}
use package.amdhardware_kernel.Schedule.{reset_schedule}
use package.amdhardware_kernel.Klist.{update}

-- `enum axi_state`
pub data AxiState : Type 0 where
  axi_idle axi_write_addr axi_write_data axi_write_resp axi_read_addr axi_read_data : AxiState

-- AXI_BURST_TYPE_FIXED and AXI_BURST_TYPE_INCR
pub data BurstType : Type 0 where
  fixed incr : BurstType

-- AXI_CACHE_NORMAL and AXI_CACHE_DEVICE
pub data CacheAttr : Type 0 where
  normal device : CacheAttr

-- AXI_SIZE_4_BYTES
abbrev pub axi_size_4_bytes : ℕ
axi_size_4_bytes = 2

-- What `mgpu_axi_setup_burst` sets of a transaction.
pub record Burst : Type 0 where
  pub is_burst : Bool
  pub burst_len : ℕ
  pub burst_size : ℕ
  pub burst_type : BurstType
  pub cache_attr : CacheAttr
  pub prot_attr : ℕ

-- `struct mgpu_axi_transaction`; `done` says whether its completion is complete, and the buffer is
-- never NULL.
pub record AxiTransaction : Type 0 where
  pub addr : ℕ
  pub size : ℕ
  pub is_write : Bool
  pub burst : Burst
  pub done : Bool
  pub status : Status

-- `struct mgpu_axi_ctrl`, with whether its timer is pending, and the transactions by their addresses.
pub record AxiCtrl : Type 0 where
  pub data_width : ℕ
  pub addr_width : ℕ
  pub id_width : ℕ
  pub max_burst_len : ℕ
  pub current_txn : Option ℕ
  pub state : AxiState
  pub read_txns : ℕ
  pub write_txns : ℕ
  pub read_bytes : ℕ
  pub write_bytes : ℕ
  pub error_count : ℕ
  pub last_error_addr : ℕ
  pub last_error_resp : ℕ
  pub timer_pending : Bool
  pub txns : ℕ → Option AxiTransaction

-- `(size / 4) - 1` in a u32, and at most 255.
pub burst_beats : ℕ → ℕ
burst_beats size = let len = u32 (size / 4 - 1) in if ltb 255 len then 255 else len

-- For a `size` above 4 the subtraction does not wrap.
pub setup_burst : ℕ → ℕ → Burst
unfolding burst_beats
setup_burst addr size =
    let single = leb size 4 in
    record {
      is_burst = if single then false else true;
      burst_len = if single then 0 else burst_beats size;
      burst_size = axi_size_4_bytes;
      burst_type = if single then fixed else incr;
      cache_attr = if ltb addr 0x40000000 then normal else device;
      prot_attr = 0;
    }

-- `status` and `complete` for the transaction at an address, which is then no longer the current one.
pub complete_at : ℕ → Status → AxiCtrl → Option AxiTransaction → Option AxiCtrl
complete_at p status ctrl none = none
complete_at p status ctrl (some txn) = some (record ctrl {
  current_txn = none;
  txns = update ctrl.txns p (some (record txn { status = status; done = true }));
})

pub complete_current : Status → AxiCtrl → Option ℕ → Option AxiCtrl
unfolding complete_at
complete_current status ctrl none = some ctrl
complete_current status ctrl (some p) = complete_at p status ctrl (ctrl.txns p)

-- The rest of `mgpu_axi_timeout`; a fault stays one.
pub timeout_counted : Bool → Option AxiCtrl → Io (Option AxiCtrl)
unfolding reset_schedule
timeout_counted in_reset none = pure none
timeout_counted in_reset (some ctrl) = do
  let ctrl' = record ctrl { state = axi_idle; error_count = u64 (ctrl.error_count + 1) }
  if ltb 10 ctrl'.error_count then reset_schedule in_reset else unit_done
  pure (some ctrl')

-- The timer expires, which ends its being pending.
pub axi_timeout : Bool → AxiCtrl → Io (Option AxiCtrl)
unfolding complete_current timeout_counted
axi_timeout in_reset ctrl =
    let expired = record ctrl { timer_pending = false } in
    timeout_counted in_reset (complete_current (err etimedout) expired ctrl.current_txn)

-- The status for a response code.
pub response_status : ℕ → Status
response_status resp =
    if leb (resp % 4) 1 then ok else if leb (resp % 4) 2 then err eio else err efault

-- What an error response notes of the transaction that it is for.
pub note_error : ℕ → AxiCtrl → Option AxiTransaction → AxiCtrl
note_error resp ctrl none = record ctrl { error_count = u64 (ctrl.error_count + 1) }
note_error resp ctrl (some txn) = record ctrl {
  last_error_addr = u32 txn.addr;
  last_error_resp = resp;
  error_count = u64 (ctrl.error_count + 1);
}

pub responded : ℕ → AxiCtrl → Option AxiTransaction → AxiCtrl
unfolding note_error
responded resp ctrl txn = if leb (resp % 4) 1 then ctrl else note_error resp ctrl txn

-- `mgpu_axi_handle_response` with its current transaction.
pub response_for : ℕ → AxiCtrl → Option ℕ → Option AxiCtrl
unfolding complete_at responded response_status
response_for resp ctrl none = some (record (responded resp ctrl none) { state = axi_idle })
response_for resp ctrl (some p) =
    let noted = responded resp ctrl (ctrl.txns p) in
    complete_at p (response_status resp) (record noted { state = axi_idle; timer_pending = false })
      (ctrl.txns p)

pub handle_response : ℕ → AxiCtrl → Option AxiCtrl
unfolding response_for
handle_response resp ctrl = response_for resp ctrl ctrl.current_txn

-- The case AXI_READ_DATA, which looks at the buffer of the current transaction.
pub read_arrived : AxiCtrl → Option ℕ → Option AxiCtrl
unfolding handle_response
read_arrived ctrl none = some ctrl
read_arrived ctrl (some p) = handle_response 0 ctrl

pub irq_in : AxiState → AxiCtrl → Option AxiCtrl
unfolding handle_response read_arrived
irq_in axi_write_resp ctrl = handle_response 0 ctrl
irq_in axi_read_data ctrl = read_arrived ctrl ctrl.current_txn
irq_in _ ctrl = some ctrl

-- `mgpu_axi_irq_handler` with a controller; without one it returns at once.
pub axi_irq_handler : Hw → AxiCtrl → Io (Option AxiCtrl)
unfolding irq_in
axi_irq_handler hw ctrl = do status ← read hw reg_status; pure (irq_in ctrl.state ctrl)
