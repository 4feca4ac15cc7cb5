-- ===== src/Loraham/Backend/Receive.antt =====
-- loraham_backend.cpp: dispatch, and the loop over the reads of the DATA socket.
pub mod Keeps
pub mod Credit
pub mod Quiet
pub mod Sink
pub mod View
use meshcom_loraham_bridge.Prelude.{
  ℕ, suc, ◌+◌, ◌*◌, Bool, true, false, ◌&&◌, Option, none, some, List, [], ◌∷◌, ◌++◌, ltb, ◌==◌,
  if◌then◌else◌, length, Bytes,
}
use meshcom_loraham_bridge.Radio.{RxEvent, rx, tx_complete, TxOutcome, radio_error}
use meshcom_loraham_bridge.Loraham.Framing.{
  Frame, Parser, decode_rx, decode_tx_result, map_tx_status, framed_rx_packet, framed_tx_result,
  framed_error, tx_status_ok,
}
use meshcom_loraham_bridge.Loraham.Framing.Pump.{Pumped, drained, ended, broken, stuck, pump}
use meshcom_loraham_bridge.Loraham.Link.{Recv, recv_failed, received, read_chunk, chunk_of}
use meshcom_loraham_bridge.Loraham.Link
use meshcom_loraham_bridge.Loraham.Backend.{
  Backend, State, disconnected, connecting, configuring, ready, tx_writing, tx_pending, draining,
  faulted, rx_line, ok, emit, log_tx_outcome, handle_disconnect, resolve_drain,
}

abbrev pub receives : State → Bool
receives ready = true
receives tx_writing = true
receives tx_pending = true
receives _ = false

dispatch_rx : ℕ × ℕ × Bytes → Backend → Backend
dispatch_rx (rssi, snr, rf) b =
    let logged = record b { rf_log = b.rf_log ++ rx_line rssi snr rf ∷ [] } in
    if receives b.state
    then emit (rx (record { rssi_cdbm = rssi; snr_cdb = snr; payload = rf })) logged
    else logged

-- The daemon has told the outcome of the packet that it owned.
tx_resolved : TxOutcome → Backend → Backend
tx_resolved outcome b =
    let b' = record b { state = ready; tx_out = []; tx_out_off = 0 } in
    if b.pending_epoch == b.tx_epoch then emit (tx_complete outcome) b' else b'

dispatch_tx_result : ℕ → Backend → Backend
unfolding tx_resolved
dispatch_tx_result status b =
    let logged = (if status == tx_status_ok then log_tx_outcome ok b else b) in
    elim b.state [
      | tx_pending ↦ tx_resolved (map_tx_status status) logged
      | draining ↦ resolve_drain logged
      | _ ↦ b
    ]

dispatch_error : Backend → Backend
unfolding tx_resolved
dispatch_error b = elim b.state [
  | tx_pending ↦ tx_resolved radio_error b
  | draining ↦ resolve_drain b
  | _ ↦ b
]

unfoldable pub dispatch : Frame → Backend → Backend
unfolding dispatch_rx dispatch_tx_result dispatch_error
dispatch f b =
    if f.type == framed_rx_packet
    then elim (decode_rx f) [ none ↦ b | some r ↦ dispatch_rx r b ]
    else if f.type == framed_tx_result
    then elim (decode_tx_result f) [
      | none ↦ b
      | some (status, flags, seq) ↦ dispatch_tx_result status b
    ]
    else if f.type == framed_error
    then dispatch_error b
    else b

-- The tests behind dispatch in advance_operational and in advance_drain.
unfoldable pub stops_operational : Backend → Bool
stops_operational b = elim b.state [
  | disconnected ↦ true
  | faulted ↦ true
  | draining ↦ true
  | _ ↦ false
]

unfoldable pub stops_drain : Backend → Bool
stops_drain b = elim b.state [ draining ↦ false | _ ↦ true ]

abbrev pub parser_of : Backend → Parser
parser_of b = b.parser

abbrev pub set_parser : Parser → Backend → Backend
set_parser p b = record b { parser = p }

-- A round takes a byte at least or takes a frame's header at least, so this is enough fuel.
abbrev pub pump_fuel : Bytes → Backend → ℕ
pump_fuel chunk b = suc (length b.parser.buf + 2 * length chunk)

unfoldable pub pump_chunk : (Backend → Bool) → Bytes → Backend → Pumped Backend
pump_chunk stops chunk b = pump parser_of set_parser dispatch stops (pump_fuel chunk b) chunk b

set_data : List Recv → Backend → Backend
set_data reads b = record b { link = record b.link { data_in = reads } }

-- What follows the loop over one read; a short read is the last one. `stuck` does not occur.
after_pump : Pumped Backend → Bool → Backend → (Backend → Backend) → Backend
after_pump (drained next) short b more = if short then next else more next
after_pump (ended next) short b more = next
after_pump (broken next) short b more = handle_disconnect next
after_pump stuck short b more = b

unfoldable pub data_loop : (Backend → Bool) → List Recv → Backend → Backend
unfolding set_data after_pump
data_loop stops [] b = set_data [] b
data_loop stops (recv_failed ∷ reads) b = handle_disconnect (set_data reads b)
data_loop stops (received bytes ∷ reads) b =
    let chunk = chunk_of bytes in
    let more = λ (next : Backend). data_loop stops reads next in
    if length chunk == 0
    then set_data reads b
    else after_pump (pump_chunk stops chunk (set_data reads b)) (ltb (length chunk) read_chunk) b
        more
