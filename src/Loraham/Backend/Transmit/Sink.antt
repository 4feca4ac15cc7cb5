-- ===== src/Loraham/Backend/Transmit/Sink.antt =====
-- Transmitting does not change to whom the backend reports.
use meshcom_loraham_bridge.Prelude.{ℕ, ◌+◌, Bool, arith, Bytes, Option-cases, inl, inr}
use meshcom_loraham_bridge.Loraham.Framing.{encode_tx_packet, framed_header_len, max_rf_payload}
use meshcom_loraham_bridge.Loraham.Backend.{Backend, reset_link_unconfigured}
use meshcom_loraham_bridge.Loraham.Backend.Receive.Sink.{SinkIs}
use meshcom_loraham_bridge.Loraham.Backend.Transmit.{
  pump_tx_write, submit_frame, submit_tx, abandon_pending_tx,
}

module _ (k : Bool) where
  pub pump_tx_write-SinkIs : (b : Backend) → SinkIs k b → SinkIs k (pump_tx_write b).1
  unfolding pump_tx_write
  pump_tx_write-SinkIs b v = ground arith

  submit_frame-SinkIs :
      (frame : Bytes) (b : Backend) → SinkIs k b → SinkIs k (submit_frame frame b).1
  unfolding submit_frame pump_tx_write reset_link_unconfigured
  submit_frame-SinkIs frame b v = ground arith

  pub submit_tx-SinkIs : (rf : Bytes) (b : Backend) → SinkIs k b → SinkIs k (submit_tx rf b).1
  unfolding submit_tx
  submit_tx-SinkIs rf b v =
      elim (Option-cases (encode_tx_packet (framed_header_len + max_rf_payload) rf)) [
        | inl e ↦ ground arith
        | inr (frame, e) ↦ ground (arith, submit_frame-SinkIs frame b v)
      ]

  pub abandon_pending_tx-SinkIs :
      (now : ℕ) (b : Backend) → SinkIs k b → SinkIs k (abandon_pending_tx now b)
  unfolding abandon_pending_tx reset_link_unconfigured
  abandon_pending_tx-SinkIs now b v = ground arith
