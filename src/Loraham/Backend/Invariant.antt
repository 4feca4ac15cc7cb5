-- ===== src/Loraham/Backend/Invariant.antt =====
-- The invariant of LorahamBackend, and that the operations of its header file keep it.
use meshcom_loraham_bridge.Prelude.{
  ◌/◌, ◌%◌, ◌≤◌, ◌<◌, Bool, true, false, [], ◌∷◌, ◌++◌, length, take, Bytes, ◌≡◌, arith,
}
use meshcom_loraham_bridge.Loraham.Framing.{framed_tx_packet, max_rf_payload, rx_frame_max}
use meshcom_loraham_bridge.Radio.{SinkEvent, backend_failure}
use meshcom_loraham_bridge.Loraham.Backend.{
  Backend, State, disconnected, connecting, configuring, ready, tx_writing, tx_pending, draining,
  faulted, emit, set_sink, start, stop, log_tx_outcome, reset_link_unconfigured, enter_fault,
  handle_disconnect, TxLogOutcome,
}
use meshcom_loraham_bridge.Loraham.Backend.Conf.{max_conf_line}

-- A TX_PACKET with a payload of 1 to 255 bytes.
abbrev pub IsFrame : Bytes → Type 0
IsFrame out =
    (rf : Bytes) × (out ≡ framed_tx_packet ∷ (length rf % 256) ∷ (length rf / 256 % 256) ∷ rf)
    × (1 ≤ length rf)
    × (length rf ≤ max_rf_payload)

-- The daemon has got these bytes last on the DATA socket.
abbrev pub EndsWith : Bytes → Bytes → Type 0
EndsWith sent bytes = (before : Bytes) × (sent ≡ before ++ bytes)

-- The daemon has the whole frame.
abbrev pub DaemonOwns : Backend → Type 0
DaemonOwns b =
    IsFrame b.tx_out
    × (b.tx_out_off ≡ length b.tx_out)
    × EndsWith b.link.data_sent b.tx_out
    × (b.link.is_open ≡ true)
    × (b.pending_epoch ≡ b.tx_epoch)

-- The daemon has a beginning of the frame, and more of it is still to be written.
abbrev pub BridgeOwns : Backend → Type 0
BridgeOwns b =
    IsFrame b.tx_out
    × (b.tx_out_off < length b.tx_out)
    × EndsWith b.link.data_sent (take b.tx_out_off b.tx_out)
    × (b.link.is_open ≡ true)
    × (b.pending_epoch ≡ b.tx_epoch)

abbrev pub Owner : State → Backend → Type 0
Owner disconnected b = (b.link.is_open ≡ false) × (b.tx_out ≡ [])
Owner connecting b = (b.link.is_open ≡ true) × (b.tx_out ≡ [])
Owner configuring b = (b.link.is_open ≡ true) × (b.tx_out ≡ [])
Owner ready b = b.tx_out ≡ []
Owner tx_writing b = BridgeOwns b
Owner tx_pending b = DaemonOwns b
Owner draining b = DaemonOwns b
Owner faulted b = (b.link.is_open ≡ false) × (b.tx_out ≡ [])

pub record Inv (b : Backend) : Type 0 where
  pub parser_bounded : length b.parser.buf ≤ rx_frame_max
  pub line_bounded : length b.conf_line ≤ max_conf_line
  pub owner : Owner b.state b

module _ (b : Backend) where
  pub emit-Inv : (e : SinkEvent) → Inv b → Inv (emit e b)
  unfolding emit
  emit-Inv e v = ground arith

  pub set_sink-Inv : (s : Bool) → Inv b → Inv (set_sink s b)
  unfolding set_sink
  set_sink-Inv s v = ground arith

  pub start-Inv : Inv b → Inv (start b)
  unfolding start
  start-Inv v = ground arith

  pub log_tx_outcome-Inv : (o : TxLogOutcome) → Inv b → Inv (log_tx_outcome o b)
  unfolding log_tx_outcome
  log_tx_outcome-Inv o v = ground arith

  -- Whatever the state was.
  pub reset-Inv : Inv (reset_link_unconfigured b)
  unfolding reset_link_unconfigured
  reset-Inv = ground arith

  pub enter_fault-Inv : Inv (enter_fault b)
  unfolding enter_fault
  enter_fault-Inv = ground arith

  pub stop-Inv : Inv b → Inv (stop b)
  unfolding stop
  stop-Inv v = ground (arith, reset-Inv)

pub handle_disconnect-Inv : (b : Backend) → Inv (handle_disconnect b)
unfolding handle_disconnect
handle_disconnect-Inv b = ground (
  arith,
  enter_fault-Inv b,
  emit-Inv _ backend_failure (enter_fault-Inv b),
  emit-Inv _ backend_failure (reset-Inv b),
)
