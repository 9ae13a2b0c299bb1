-- ===== src/Axi/Setup.antt =====
-- Start, end, suspend and resume of the AXI controller, its quality of service and its statistics.
mod Tests
use package.amdhardware_kernel.Common.{
  ℕ, Bool, true, false, Option, none, some, List, ltb, if◌then◌else◌,
}
use package.amdhardware_kernel.Bus.{
  Trace, Hw, Io, ◌>>=◌, pure, einval, enodev, enomem, ecanceled, Status, ok, err,
}
use package.amdhardware_kernel.Core.{core_test_alive}
use package.amdhardware_kernel.Axi.{AxiCtrl, AxiState, axi_idle, complete_current}
use package.amdhardware_kernel.Axi.Transfer.{AxiEvent, wait_done}

-- `mgpu_axi_set_qos`, which changes nothing.
pub axi_set_qos : Option AxiCtrl → ℕ → Status
axi_set_qos none priority = err enodev
axi_set_qos (some ctrl) priority = if ltb 15 priority then err einval else ok

-- What `of_property_read_u32` finds for the four properties of the device tree.
pub record AxiProperties : Type 0 where
  pub data_width : Option ℕ
  pub addr_width : Option ℕ
  pub id_width : Option ℕ
  pub max_burst_len : Option ℕ

abbrev or_default : Option ℕ → ℕ → ℕ
or_default none value = value
or_default (some value) default = value

-- `mgpu_axi_parse_dt` of a controller; without a node of the device tree it fails.
pub axi_parse_dt : Option AxiProperties → AxiCtrl → Status × AxiCtrl
axi_parse_dt none ctrl = (err enodev, ctrl)
axi_parse_dt (some properties) ctrl = (
  ok,
  record ctrl {
    data_width = or_default properties.data_width 32;
    addr_width = or_default properties.addr_width 32;
    id_width = or_default properties.id_width 4;
    max_burst_len = or_default properties.max_burst_len 256;
  },
)

-- The zeroed controller.
abbrev pub initial_ctrl : AxiCtrl
initial_ctrl = record {
  data_width = 0;
  addr_width = 0;
  id_width = 0;
  max_burst_len = 0;
  current_txn = none;
  state = axi_idle;
  read_txns = 0;
  write_txns = 0;
  read_bytes = 0;
  write_bytes = 0;
  error_count = 0;
  last_error_addr = 0;
  last_error_resp = 0;
  timer_pending = false;
  txns = λ p. none;
}

module _ (hw : Hw) where
  -- `mgpu_axi_test`, which does what `mgpu_core_test_alive` does.
  unfoldable pub axi_test : Io Status
  axi_test = core_test_alive hw

  tested : AxiCtrl → Status → Status × Option AxiCtrl
  tested ctrl ok = (ok, some ctrl)
  tested ctrl (err e) = (err e, none)

  -- With whether `kzalloc` gives memory; the answer of `mgpu_axi_parse_dt` is only logged.
  pub axi_init : Bool → Option AxiProperties → Io (Status × Option AxiCtrl)
  unfolding axi_parse_dt tested axi_test
  axi_init false properties = pure (err enomem, none)
  axi_init true properties = do
    let ctrl = (axi_parse_dt properties initial_ctrl).1
    ret ← axi_test
    pure (tested ctrl ret)

  -- `mgpu_axi_resume`
  pub axi_resume : Option AxiCtrl → Io (Status × Option AxiCtrl)
  unfolding axi_test
  axi_resume none = pure (ok, none)
  axi_resume (some ctrl) = do
    ret ← axi_test
    pure (ret, some (record ctrl { state = axi_idle; current_txn = none }))

-- `mgpu_axi_fini`, or a fault: it ends the current transaction, and leaves no controller.
pub axi_fini : Option AxiCtrl → Option (Option AxiCtrl)
unfolding complete_current
axi_fini none = some none
axi_fini (some ctrl) = elim (complete_current (err ecanceled) ctrl ctrl.current_txn) [
  | none ↦ none
  | some ended ↦ some none
]

-- The end of `mgpu_axi_suspend`.
abbrev suspended : Option (Bool × AxiCtrl) → Option (Status × AxiCtrl)
suspended none = none
suspended (some (finished, ctrl)) =
    some (ok, record ctrl { state = axi_idle; timer_pending = false })

-- The wait for the current transaction at an address, which has to be there.
abbrev wait_at : Hw → Bool → ℕ → List AxiEvent → AxiCtrl → Io (Option (Bool × AxiCtrl))
wait_at hw in_reset p events ctrl h = elim (ctrl.txns p) [
  | none ↦ (none, h)
  | some txn ↦ wait_done hw in_reset p events ctrl h
]

-- `mgpu_axi_suspend` with a controller, with what happens while it waits.
pub axi_suspend : Hw → Bool → List AxiEvent → AxiCtrl → Io (Option (Status × AxiCtrl))
axi_suspend hw in_reset events ctrl h = elim ctrl.current_txn [
  | none ↦ (suspended (some (false, ctrl)), h)
  | some p ↦ let (answer, h') = wait_at hw in_reset p events ctrl h in (suspended answer, h')
]

-- `struct mgpu_axi_stats`
pub record AxiStats : Type 0 where
  pub read_transactions : ℕ
  pub write_transactions : ℕ
  pub read_bytes : ℕ
  pub write_bytes : ℕ
  pub error_count : ℕ
  pub last_error_addr : ℕ
  pub last_error_resp : ℕ
  pub current_state : AxiState

-- `mgpu_axi_get_stats` with a controller and a pointer.
pub axi_get_stats : AxiCtrl → AxiStats
axi_get_stats ctrl = record {
  read_transactions = ctrl.read_txns;
  write_transactions = ctrl.write_txns;
  read_bytes = ctrl.read_bytes;
  write_bytes = ctrl.write_bytes;
  error_count = ctrl.error_count;
  last_error_addr = ctrl.last_error_addr;
  last_error_resp = ctrl.last_error_resp;
  current_state = ctrl.state;
}
