-- ===== src/Loraham/Backend.antt =====
-- src/backend/loraham/loraham_backend.h: the state of LorahamBackend, and the small operations of
-- loraham_backend.cpp that the others are made of. The larger ones are in the children.
pub mod Conf
pub mod Invariant
pub mod Configure
pub mod Transmit
pub mod Receive
pub mod Poll
pub mod Credit
pub mod View
pub mod Steps
mod Tests
use meshcom_loraham_bridge.Prelude.{
  ℕ, ◌+◌, ◌-◌, Bool, true, false, ◌||◌, List, [], ◌∷◌, ◌++◌, ltb, leb, if◌then◌else◌, length, drop,
  Bytes, u64_max,
}
use meshcom_loraham_bridge.Radio.{RadioConfig, zero_config, RxEvent, SinkEvent, backend_failure}
use meshcom_loraham_bridge.Loraham.Framing.{Parser, parser_reset, framed_header_len}
use meshcom_loraham_bridge.Loraham.Link.{Link}
use meshcom_loraham_bridge.Loraham.Link

pub data State : Type 0 where
  disconnected connecting configuring ready tx_writing tx_pending draining faulted : State

-- The calls of rflog::rx and rflog::tx.
pub data TxLogOutcome : Type 0 where
  ok unconfirmed : TxLogOutcome

pub data RfEntry : Type 0 where
  rx_line : ℕ → ℕ → Bytes → RfEntry
  tx_line : TxLogOutcome → Bytes → RfEntry

-- `sink` is `sink_ != nullptr`; `events` are the calls of the sink and `rf_log` those of the RF log,
-- oldest first.
pub record Backend : Type 0 where
  pub link : Link
  pub config_timeout_ms : ℕ
  pub drain_timeout_ms : ℕ
  pub sink : Bool
  pub started : Bool
  pub state : State
  pub config_token : ℕ
  pub next_token : ℕ
  pub config_deadline_at : ℕ
  pub pending_cfg : RadioConfig
  pub conf_out : Bytes
  pub conf_out_off : ℕ
  pub awaiting_status : Bool
  pub conf_line : Bytes
  pub drain_deadline_at : ℕ
  pub tx_out : Bytes
  pub tx_out_off : ℕ
  pub tx_epoch : ℕ
  pub pending_epoch : ℕ
  pub parser : Parser
  pub events : List SinkEvent
  pub rf_log : List RfEntry

unfoldable pub emit : SinkEvent → Backend → Backend
emit e b = if b.sink then record b { events = b.events ++ e ∷ [] } else b

unfoldable pub set_sink : Bool → Backend → Backend
set_sink s b = record b { sink = s }

unfoldable pub start : Backend → Backend
start b = record b { started = true }

unfoldable pub is_ready : Backend → Bool
is_ready b = elim b.state [ ready ↦ b.started | _ ↦ false ]

unfoldable pub log_tx_outcome : TxLogOutcome → Backend → Backend
log_tx_outcome outcome b =
    if leb (length b.tx_out) framed_header_len
    then b
    else record b { rf_log = b.rf_log ++ tx_line outcome (drop framed_header_len b.tx_out) ∷ [] }

unfoldable pub reset_link_unconfigured : Backend → Backend
unfolding Link.close parser_reset
reset_link_unconfigured b = record b {
  link = Link.close b.link;
  state = disconnected;
  parser = parser_reset b.parser;
  conf_line = [];
  conf_out = [];
  conf_out_off = 0;
  tx_out = [];
  tx_out_off = 0;
  awaiting_status = false;
}

unfoldable pub enter_fault : Backend → Backend
unfolding log_tx_outcome Link.close parser_reset
enter_fault b =
    let logged = log_tx_outcome unconfirmed b in
    record logged {
      link = Link.close b.link;
      state = faulted;
      parser = parser_reset b.parser;
      conf_line = [];
      conf_out = [];
      conf_out_off = 0;
      tx_out = [];
      tx_out_off = 0;
      awaiting_status = false;
    }

unfoldable pub handle_disconnect : Backend → Backend
handle_disconnect b = elim b.state [
  | draining ↦ enter_fault b
  | tx_pending ↦ emit backend_failure (enter_fault b)
  | _ ↦ emit backend_failure (reset_link_unconfigured b)
]

unfoldable pub resolve_drain : Backend → Backend
resolve_drain b = reset_link_unconfigured b

unfoldable pub stop : Backend → Backend
stop b = elim b.state [
  | draining ↦ record b { started = false }
  | faulted ↦ record b { started = false }
  | _ ↦ let reset = reset_link_unconfigured b in record reset { started = false }
]

unfoldable pub next_deadline_ms : Backend → ℕ
next_deadline_ms b = elim b.state [
  | connecting ↦ b.config_deadline_at
  | configuring ↦ b.config_deadline_at
  | draining ↦ b.drain_deadline_at
  | _ ↦ u64_max
]
