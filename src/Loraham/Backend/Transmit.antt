-- ===== src/Loraham/Backend/Transmit.antt =====
-- loraham_backend.cpp, the transmission: pump_tx_write, submit_tx and abandon_pending_tx.
pub mod Write
pub mod Keeps
pub mod Sink
use meshcom_loraham_bridge.Prelude.{
  ℕ, ◌+◌, Bool, true, false, ◌||◌, not, Option, none, some, List, [], ◌∷◌, ◌++◌, ltb, ◌==◌,
  if◌then◌else◌, length, take, drop, Bytes, add64, inc32,
}
use meshcom_loraham_bridge.Loraham.Framing.{encode_tx_packet, framed_header_len, max_rf_payload}
use meshcom_loraham_bridge.Loraham.Link.{
  send_loop, data_writes, TxFlush, complete, partial, flush_failed,
}
use meshcom_loraham_bridge.Loraham.Link
use meshcom_loraham_bridge.Loraham.Backend.{
  Backend, State, disconnected, connecting, configuring, ready, tx_writing, tx_pending, draining,
  faulted, is_ready, reset_link_unconfigured,
}

unfoldable pub pump_tx_write : Backend → TxFlush × Backend
pump_tx_write b =
    let rest = drop b.tx_out_off b.tx_out in
    let w = send_loop (data_writes b.link) rest in
    (
      w.flush,
      record b {
        link = record b.link {
          data_room = w.room;
          data_sent = b.link.data_sent ++ take w.count rest;
        };
        tx_out_off = b.tx_out_off + w.count;
      },
    )

queue_frame : Bytes → Backend → Backend
queue_frame frame b = record b {
  tx_out = frame;
  tx_out_off = 0;
  tx_epoch = inc32 b.tx_epoch;
  pending_epoch = inc32 b.tx_epoch;
  state = tx_writing;
}

unfoldable pub submit_frame : Bytes → Backend → Bool × Backend
unfolding queue_frame
submit_frame frame b =
    let (flush, b') = pump_tx_write (queue_frame frame b) in
    elim flush [
      | flush_failed ↦ (false, reset_link_unconfigured b')
      | complete ↦ (true, record b' { state = tx_pending })
      | partial ↦ (true, b')
    ]

unfoldable pub submit_tx : Bytes → Backend → Bool × Backend
unfolding is_ready
submit_tx rf b =
    if not (is_ready b)
    then (false, b)
    else if length rf == 0 || ltb max_rf_payload (length rf)
    then (false, b)
    else elim (encode_tx_packet (framed_header_len + max_rf_payload) rf) [
      | none ↦ (false, b)
      | some frame ↦ submit_frame frame b
    ]

unfoldable pub abandon_pending_tx : ℕ → Backend → Backend
abandon_pending_tx now b = elim b.state [
  | tx_pending ↦ record b { state = draining; drain_deadline_at = add64 now b.drain_timeout_ms }
  | tx_writing ↦ reset_link_unconfigured b
  | _ ↦ b
]
