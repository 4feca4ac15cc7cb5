-- ===== src/Xr/Tests.antt =====
-- A session and a connection to run, and the theorems at them.
use meshcom_loraham_bridge.Prelude.{
  ◌+◌, ◌≤◌, ◌<◌, true, false, some, List, [], ◌∷◌, ◌++◌, length, ◌≡◌, ◌≢◌, ◌↔◌, ◌⊎◌, refl, drop,
  Bytes, arith, u64_max, if◌then◌else◌,
}
use meshcom_loraham_bridge.Radio.{tx_complete, success, backend_failure}
use meshcom_loraham_bridge.Auth.{verify_auth_response, auth_response_size}
use meshcom_loraham_bridge.Xr.Codec.{XrFrame, msg_auth_response}
use meshcom_loraham_bridge.Xr.Toy.{toy, toy_mac, toy-ParserLaws, new_session, daemon}
use meshcom_loraham_bridge.Xr.Outbox.{
  Buffer, IsBuffer, append, append_lem, consume, consume_lem, size, unsent, compact_if_needed,
}
use meshcom_loraham_bridge.Xr.Session.{Session, wait_auth, wait_configure, ready, open_session, arm}
use meshcom_loraham_bridge.Xr.Session.Invariant.{SessionInv}
use meshcom_loraham_bridge.Xr.Session.Steps.{
  SessionCall, feed_call, tick_call, poll_call, consume_call, session_run, session_protocol,
  open_session-Inv,
}
use meshcom_loraham_bridge.Loraham.Backend.{Backend, tx_pending}
use meshcom_loraham_bridge.Loraham.Backend.Poll.{loraham_backend}
use meshcom_loraham_bridge.Loraham.Framing.{bytes_eq}
use meshcom_loraham_bridge.Auth.{hmac_sha256, password_configured}
use meshcom_loraham_bridge.Xr.Session.{emit, is_client_message}
use meshcom_loraham_bridge.Xr.Session.Handle.{admit, handle_auth, handle_phase, handle_frame}
use meshcom_loraham_bridge.Xr.Session.Feed.{feed}
use meshcom_loraham_bridge.Xr.Session.Feed.Keeps.{feed-SessionInv}
use meshcom_loraham_bridge.Xr.Session.Events.{on_events}
use meshcom_loraham_bridge.Xr.Session.Time.{tick, next_deadline_ms}
use meshcom_loraham_bridge.Xr.Session.Time.Keeps.{tick_early}
use meshcom_loraham_bridge.Xr.Session.Time.Due.{ClosedOrPinged, tick_due}
use meshcom_loraham_bridge.Xr.Session.Gate.{
  handle_frame_auth, verify_auth_response_iff, closed_stays,
}
use meshcom_loraham_bridge.Xr.Connection.{
  Connection, wrote, write_interrupted, flush, close_connection, compute_timeout_ms,
  compute_timeout_ms_lem, IsBefore,
}
use meshcom_loraham_bridge.Xr.Connection.Flush.{stream, flush-stream}
use meshcom_loraham_bridge.Xr.Connection.Teardown.{Ended, close_connection_lem}

-- HELLO, an AUTH_RESPONSE that is not the MAC, then polls and a tick.
abbrev a_login : List SessionCall
a_login =
    feed_call 10 (1 ∷ [])
    ∷ poll_call 20
    ∷ consume_call 3
    ∷ feed_call 30 (4 ∷ [])
    ∷ tick_call 40
    ∷ poll_call 50
    ∷ []

session_protocol_example :
    (last : Session toy × Backend) × (session_run loraham_backend a_login
        (open_session loraham_backend 0 (new_session, daemon))
      ≡ some last)
    × SessionInv last.0
session_protocol_example =
    session_protocol loraham_backend toy-ParserLaws 0 a_login new_session daemon

abbrev opened : Session toy × Backend
opened = open_session loraham_backend 0 (new_session, daemon)

opened-SessionInv : SessionInv opened.0
opened-SessionInv = open_session-Inv loraham_backend 0 new_session daemon

feed-SessionInv_example :
    (next : Session toy × Backend) × (feed loraham_backend 10 (1 ∷ 4 ∷ []) opened ≡ some next)
    × SessionInv next.0
feed-SessionInv_example =
    feed-SessionInv loraham_backend toy-ParserLaws 10 (1 ∷ 4 ∷ []) opened.0 opened.1
      opened-SessionInv

opened_deadline : 10 < next_deadline_ms opened.0
unfolding open_session arm next_deadline_ms
opened_deadline = omega arith

tick_early_example : tick loraham_backend 10 opened ≡ opened
tick_early_example = tick_early loraham_backend 10 opened.0 opened.1 opened_deadline

abbrev half_sent : Buffer
half_sent = record { cap = 8; buf = 1 ∷ 2 ∷ 3 ∷ 4 ∷ []; head = 2; capacities = 5 ∷ [] }

half_sent-IsBuffer : IsBuffer half_sent
unfolding size
half_sent-IsBuffer = record { front = omega arith; fits = omega arith }

abbrev silent : Session toy
silent = record new_session { phase = ready; next_ping_at = 90; outbox = half_sent }

silent_deadline : next_deadline_ms silent ≤ 100
unfolding next_deadline_ms
silent_deadline = omega arith

tick_due_example : ClosedOrPinged 100 silent (tick loraham_backend 100 (silent, daemon)).0
tick_due_example =
    tick_due loraham_backend 100 silent daemon half_sent-IsBuffer silent_deadline (omega arith)

-- The client answers the challenge.
abbrev challenged_session : Session toy
challenged_session = record new_session { phase = wait_auth; nonce = 1 ∷ 2 ∷ 3 ∷ [] }

abbrev answer_frame : XrFrame
answer_frame = record { type = msg_auth_response; seq = 0; payload = toy_mac }

answer_passes :
    (handle_frame loraham_backend 5 answer_frame (challenged_session, daemon)).0.phase
    ≡ wait_configure
unfolding handle_frame handle_phase handle_auth admit emit arm append compact_if_needed
    is_client_message verify_auth_response hmac_sha256 password_configured bytes_eq size
answer_passes = refl

handle_frame_auth_example :
    (answer_frame.type ≡ msg_auth_response)
    × (challenged_session.auth.password ≢ [])
    × (some toy_mac ≡ some answer_frame.payload)
handle_frame_auth_example =
    handle_frame_auth loraham_backend 5 answer_frame challenged_session daemon refl answer_passes

verify_auth_response_iff_example :
    (verify_auth_response toy.hmac challenged_session.auth (1 ∷ []) toy_mac ≡ true) ↔ (
      (challenged_session.auth.password ≢ [])
      × (length toy_mac ≡ auth_response_size)
      × (some toy_mac ≡ some toy_mac))
verify_auth_response_iff_example =
    verify_auth_response_iff toy.hmac challenged_session.auth (1 ∷ []) toy_mac

closed_stays_example :
    (feed loraham_backend 10 (1 ∷ []) (new_session, daemon) ≡ some (new_session, daemon))
    × (tick loraham_backend 10 (new_session, daemon) ≡ (new_session, daemon))
    × (on_events 10 (tx_complete success ∷ backend_failure ∷ []) new_session ≡ new_session)
closed_stays_example =
    closed_stays loraham_backend 10 (1 ∷ []) (tx_complete success ∷ backend_failure ∷ [])
      new_session daemon refl refl

abbrev five_six : Bytes
five_six = 5 ∷ 6 ∷ []

append_lem_example :
    IsBuffer (append five_six half_sent).1
    × (((append five_six half_sent).0 ≡ true)
        ↔ (length five_six ≡ 0) ⊎ (size half_sent + length five_six ≤ 8))
    × (unsent (append five_six half_sent).1 ≡ (
        if (append five_six half_sent).0 then unsent half_sent ++ five_six else unsent half_sent))
    × ((append five_six half_sent).1.cap ≡ 8)
append_lem_example = append_lem five_six half_sent half_sent-IsBuffer

consume_lem_example :
    IsBuffer (consume 1 half_sent) × (unsent (consume 1 half_sent) ≡ drop 1 (unsent half_sent))
consume_lem_example = consume_lem 1 half_sent half_sent-IsBuffer

abbrev connection : Connection toy
connection = record {
  session = record new_session { outbox = half_sent };
  socket_error = false;
  fd_open = true;
  reads = [];
  writes = wrote 1 ∷ write_interrupted ∷ wrote 9 ∷ [];
  peer_got = 1 ∷ 2 ∷ [];
}

flush-stream_example :
    (stream (flush connection) ≡ stream connection) × IsBuffer (flush connection).session.outbox
flush-stream_example = flush-stream connection half_sent-IsBuffer

compute_timeout_ms_lem_example :
    (compute_timeout_ms 50 u64_max (some 80) ≤ 100)
    × IsBefore (50 + compute_timeout_ms 50 u64_max (some 80)) 50 u64_max
    × IsBefore (50 + compute_timeout_ms 50 u64_max (some 80)) 50 80
    × ((compute_timeout_ms 50 u64_max (some 80) ≡ 0)
        ↔ ((u64_max ≤ 50) × (u64_max < u64_max)) ⊎ ((80 ≤ 50) × (80 < u64_max)))
compute_timeout_ms_lem_example = compute_timeout_ms_lem 50 u64_max 80 (omega arith) (omega arith)

abbrev owned : Backend
owned = record daemon { state = tx_pending }

abbrev after_close : Backend
after_close = (close_connection loraham_backend 3 (connection, owned)).1

close_connection_lem_example :
    (after_close.sink ≡ false)
    × (after_close.started ≡ false)
    × Ended tx_pending 3 owned after_close
close_connection_lem_example = close_connection_lem 3 connection owned
