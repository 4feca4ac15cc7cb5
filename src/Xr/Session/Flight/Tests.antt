-- ===== src/Xr/Session/Flight/Tests.antt =====
-- A transmission that runs, and the theorem at it.
use meshcom_loraham_bridge.Prelude.{true, false, List, [], ◌∷◌, ◌≡◌, ◌⊎◌, refl, arith}
use meshcom_loraham_bridge.Radio.{success, timeout}
use meshcom_loraham_bridge.Loraham.Link.{send_loop, data_writes}
use meshcom_loraham_bridge.Loraham.Framing.{encode_tx_packet}
use meshcom_loraham_bridge.Loraham.Backend.{Backend, ready, is_ready}
use meshcom_loraham_bridge.Loraham.Backend.Transmit.{submit_tx, submit_frame, pump_tx_write}
use meshcom_loraham_bridge.Loraham.Backend.Poll.{loraham_backend}
use meshcom_loraham_bridge.Xr.Codec.{XrFrame, msg_tx_request}
use meshcom_loraham_bridge.Xr.Outbox.{size}
use meshcom_loraham_bridge.Xr.Toy.{toy, new_session, daemon}
use meshcom_loraham_bridge.Xr.Session.{Session, Phase}
use meshcom_loraham_bridge.Xr.Session.Wire.{wire_step, wire_run}
use meshcom_loraham_bridge.Xr.Session.Invariant.{SessionInv}
use meshcom_loraham_bridge.Xr.Session.Handle.{handle_frame}
use meshcom_loraham_bridge.Xr.Session.Events.{on_tx_complete}
use meshcom_loraham_bridge.Xr.Session.Flight.{
  Happening, packet_heard, time_passed, output_taken, meet_all, Resulted, tx_request-result,
}

-- HELLO_ACK, AUTH_RESULT and CONFIG_RESULT have been sent.
abbrev configured_session : Session toy
configured_session = record new_session {
  phase = Phase.ready;
  next_ping_at = 15000;
  sent =
      (record { type = 2; seq = 0; payload = 1 ∷ [] })
      ∷ (record { type = 5; seq = 0; payload = 0 ∷ [] })
      ∷ (record { type = 7; seq = 0; payload = 0 ∷ [] })
      ∷ [];
}

configured_session-SessionInv : SessionInv configured_session
unfolding wire_step wire_run size
configured_session-SessionInv = record {
  log = refl;
  reason = refl;
  timer = refl;
  expiry = λ h. cc;
  flight = λ h. cc;
  buffer = record { front = omega arith; fits = omega arith };
}

abbrev linked : Backend
linked = record daemon {
  started = true;
  state = ready;
  link = record daemon.link { is_open = true };
}

abbrev request : XrFrame
request = record { type = msg_tx_request; seq = 77; payload = 7 ∷ 8 ∷ 9 ∷ [] }

request_taken : (loraham_backend.submit_tx request.payload linked).0 ≡ true
unfolding submit_tx submit_frame pump_tx_write data_writes send_loop encode_tx_packet is_ready
request_taken = refl

-- A packet is heard, time passes, and a byte goes out.
abbrev between : List Happening
between =
    packet_heard (record { rssi_cdbm = 1; snr_cdb = 2; payload = 3 ∷ [] })
    ∷ time_passed 100
    ∷ output_taken 1
    ∷ []

abbrev asked : Session toy × Backend
asked = handle_frame loraham_backend 50 request (configured_session, linked)

abbrev waited : Session toy
waited = (meet_all loraham_backend between asked).0

abbrev landed : Session toy
landed = on_tx_complete success waited

tx_request-result_example :
    ((asked.0.phase ≡ Phase.ready)
      × (asked.0.tx_in_flight ≡ true)
      × (asked.0.sent ≡ configured_session.sent))
    × (landed.tx_in_flight ≡ false)
    × (on_tx_complete timeout landed ≡ landed)
    × ((waited.phase ≡ Phase.closed) × (landed ≡ waited)
        ⊎ (waited.phase ≡ Phase.ready) × Resulted 77 success waited landed)
tx_request-result_example =
    tx_request-result loraham_backend 50 request between success timeout configured_session linked
      configured_session-SessionInv refl refl refl refl request_taken
