-- ===== src/Loraham/Backend/Transmit/Keeps.antt =====
-- The transmission keeps the invariant: the frame is the daemon's once it is written whole.
use meshcom_loraham_bridge.Prelude.{
  ℕ, ◌+◌, ◌≤◌, true, false, length, Bytes, ◌≡◌, ◌≢◌, ◌⊎◌, inl, inr, refl, sym, subst, append-nil,
  ◌∙◌, arith, some, Bool-cases, Option-cases,
}
use meshcom_loraham_bridge.Loraham.Framing.{
  framed_header_len, max_rf_payload, encode_tx_packet, rx_frame_max,
}
use meshcom_loraham_bridge.Loraham.Framing.Codec.{encode_tx_packet_lem}
use meshcom_loraham_bridge.Loraham.Link.{
  complete, partial, flush_failed, send_loop, data_writes, TxFlush,
}
use meshcom_loraham_bridge.Loraham.Backend.{
  Backend, State, tx_writing, tx_pending, reset_link_unconfigured,
}
use meshcom_loraham_bridge.Loraham.Backend.Invariant.{
  Inv, Owner, IsFrame, DaemonOwns, BridgeOwns, reset-Inv,
}
use meshcom_loraham_bridge.Loraham.Backend.Conf.{max_conf_line}
use meshcom_loraham_bridge.Loraham.Backend.Transmit.{
  pump_tx_write, queue_frame, submit_frame, submit_tx, abandon_pending_tx,
}
use meshcom_loraham_bridge.Loraham.Backend.Transmit.Write.{TxFlush-cases, pump_tx_write_owner}

-- A fresh frame is the bridge's.
queue_frame-BridgeOwns :
    (b : Backend) (frame : Bytes)
    → IsFrame frame
    → b.link.is_open ≡ true
    → BridgeOwns (queue_frame frame b)
unfolding queue_frame
queue_frame-BridgeOwns b frame (rf, e, lo, hi) is_open =
    ((rf, e, lo, hi), rw e (omega arith), (b.link.data_sent, sym (append-nil _)), is_open, refl)

-- The three ends of submit_frame.
module _ (b : Backend) (frame : Bytes) where
  written : TxFlush × Backend
  written = pump_tx_write (queue_frame frame b)

  submit_complete :
      written.0 ≡ complete
      → submit_frame frame b ≡ (true, record (written.1) { state = tx_pending })
  unfolding submit_frame written
  submit_complete e = ground arith

  submit_partial : written.0 ≡ partial → submit_frame frame b ≡ (true, written.1)
  unfolding submit_frame written
  submit_partial e = ground arith

  submit_failed :
      written.0 ≡ flush_failed → submit_frame frame b ≡ (false, reset_link_unconfigured written.1)
  unfolding submit_frame written
  submit_failed e = ground arith

  written_parts :
      Inv b
      → (length written.1.parser.buf ≤ rx_frame_max)
        × (length written.1.conf_line ≤ max_conf_line)
        × (written.1.state ≡ tx_writing)
  unfolding written queue_frame pump_tx_write
  written_parts v = ground arith

  written_owner :
      IsFrame frame
      → b.link.is_open ≡ true
      → ((written.0 ≡ complete) × DaemonOwns written.1)
        ⊎ ((written.0 ≢ complete) × BridgeOwns written.1)
  unfolding written
  written_owner h o = pump_tx_write_owner (queue_frame frame b) (queue_frame-BridgeOwns b frame h o)

  written_closed : IsFrame frame → b.link.is_open ≡ false → written.0 ≡ flush_failed
  unfolding written queue_frame pump_tx_write data_writes send_loop
  written_closed (rf, e, lo, hi) o = ground arith

  submit_frame-Inv : IsFrame frame → Inv b → Inv (submit_frame frame b).1
  submit_frame-Inv h v = elim (TxFlush-cases written.0) [
    | inl e ↦ rw (submit_complete e) (go_complete e (Bool-cases b.link.is_open))
    | inr (inl e) ↦ rw (submit_partial e) (go_partial e (Bool-cases b.link.is_open))
    | inr (inr e) ↦ rw (submit_failed e) (reset-Inv written.1)
  ]
    where
      parts :
          (length written.1.parser.buf ≤ rx_frame_max)
          × (length written.1.conf_line ≤ max_conf_line)
          × (written.1.state ≡ tx_writing)
      parts = written_parts v

      go_complete :
          written.0 ≡ complete
          → (b.link.is_open ≡ true) ⊎ (b.link.is_open ≡ false)
          → Inv (record (written.1) { state = tx_pending })
      go_complete e (inl o) = elim (written_owner h o) [
        | inl (_, owns) ↦ record { parser_bounded = parts.0; line_bounded = parts.1; owner = owns }
        | inr (ne, _) ↦ absurd (ne e)
      ]
      go_complete e (inr c) = absurd (cc (sym e ∙ written_closed h c))

      go_partial :
          written.0 ≡ partial → (b.link.is_open ≡ true) ⊎ (b.link.is_open ≡ false) → Inv written.1
      go_partial e (inl o) = elim (written_owner h o) [
        | inl (x, _) ↦ absurd (cc (sym e ∙ x))
        | inr (_, owns) ↦ record {
          parser_bounded = parts.0;
          line_bounded = parts.1;
          owner = subst (λ (s : State). Owner s written.1) (sym parts.2) owns;
        }
      ]
      go_partial e (inr c) = absurd (cc (sym e ∙ written_closed h c))

encode-IsFrame :
    (rf : Bytes) (frame : Bytes)
    → 1 ≤ length rf
    → encode_tx_packet (framed_header_len + max_rf_payload) rf ≡ some frame
    → IsFrame frame
encode-IsFrame rf frame h e = elim (encode_tx_packet_lem (framed_header_len + max_rf_payload) rf) [
  | inl (e', le, _) ↦ (rf, cc (sym e ∙ e'), h, le)
  | inr (e', _) ↦ absurd (cc (sym e ∙ e'))
]

pub submit_tx-Inv : (rf : Bytes) (b : Backend) → Inv b → Inv (submit_tx rf b).1
unfolding submit_tx
submit_tx-Inv rf b v =
    elim (Option-cases (encode_tx_packet (framed_header_len + max_rf_payload) rf)) [
      | inl e ↦ ground arith
      | inr (frame, e) ↦ ground (arith, submit_frame-Inv b frame, encode-IsFrame rf frame)
    ]

pub abandon_pending_tx-Inv : (now : ℕ) (b : Backend) → Inv b → Inv (abandon_pending_tx now b)
unfolding abandon_pending_tx
abandon_pending_tx-Inv now b v = ground (arith, reset-Inv b)
