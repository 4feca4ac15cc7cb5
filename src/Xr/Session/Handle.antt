-- ===== src/Xr/Session/Handle.antt =====
-- xr_session.cpp: handle_frame and handle_ready_frame.
pub mod View
pub mod Keeps
use meshcom_loraham_bridge.Prelude.{
  ℕ, ◌*◌, Bool, true, false, not, Option, none, some, List, [], ◌∷◌, leb, ◌==◌, if◌then◌else◌,
  Bytes, add64, sub64, u64_mod, ◌%◌, inc32,
}
use meshcom_loraham_bridge.Radio.{RadioConfig, RadioBackend}
use meshcom_loraham_bridge.Auth.{password_configured, verify_auth_response}
use meshcom_loraham_bridge.Xr.Codec.{
  External, XrFrame, msg_hello, msg_hello_ack, msg_auth_challenge, msg_auth_response,
  msg_auth_result, msg_configure, msg_config_result, msg_tx_request, msg_pong, msg_error, version,
  auth_ok, auth_fail, cfg_unsupported, cfg_invalid,
}
use meshcom_loraham_bridge.Xr.Session.{
  Session, wait_hello, wait_auth, wait_configure, configuring, ready, closed, malformed_frame,
  bad_state, remote_error, auth_failed, auth_error, config_failed, backend_failure, auth_timeout,
  config_timeout, is_client_message, arm, close, emit,
}

pub next_nonce : List (Option Bytes) → Option Bytes × List (Option Bytes)
next_nonce [] = (none, [])
next_nonce (n ∷ ns) = (n, ns)

module _ {ext : External} where
  -- Go on with `next` where the frame is in the outbox.
  abbrev pub then_emitted : Bool × Session ext → (Session ext → Session ext) → Session ext
  then_emitted (true, s) next = next s
  then_emitted (false, s) next = s

  -- The client is let in.
  unfoldable pub admit : ℕ → Session ext → Session ext
  admit now s =
      then_emitted (emit msg_auth_result 0 (auth_ok ∷ []) s)
        (λ s'. arm now s'.to.config_ms config_timeout (record s' { phase = wait_configure }))

  -- The challenge goes out with the nonce that `random_nonce` has given, if any.
  unfoldable pub challenge_with : ℕ → Option Bytes → Session ext → Session ext
  challenge_with now none s = close auth_error s
  challenge_with now (some bytes) s =
      then_emitted (emit msg_auth_challenge 0 bytes (record s { nonce = bytes }))
        (λ s'. arm now s'.to.auth_ms auth_timeout (record s' { phase = wait_auth }))

  unfoldable pub challenge : ℕ → Session ext → Session ext
  challenge now s =
      let (nonce, rest) = next_nonce s.nonces in
      challenge_with now nonce (record s { nonces = rest })

  unfoldable pub handle_hello : ℕ → XrFrame → Session ext → Session ext
  handle_hello now f s =
      if f.type == msg_hello
      then then_emitted (emit msg_hello_ack 0 (version ∷ []) s)
          (λ s'. if password_configured s'.auth then challenge now s' else admit now s')
      else close bad_state s

  unfoldable pub handle_auth : ℕ → XrFrame → Session ext → Session ext
  handle_auth now f s =
      if f.type == msg_auth_response
      then if verify_auth_response ext.hmac s.auth s.nonce f.payload
        then admit now s
        else close auth_failed (emit msg_auth_result 0 (auth_fail ∷ []) s).1
      else close bad_state s

  -- A CONFIG_RESULT that is no success, and the end of the session.
  unfoldable pub refuse_config : ℕ → Session ext → Session ext
  refuse_config code s = close config_failed (emit msg_config_result 0 (code ∷ []) s).1

  unfoldable pub handle_pong : ℕ → Session ext → Session ext
  handle_pong now s =
      let rtt = sub64 now s.ping_sent_at in
      let late = leb s.to.pong_timeout_ms (rtt * 2 % u64_mod) in
      if s.awaiting_pong
      then record s {
        awaiting_pong = false;
        last_pong_rtt_ms = rtt;
        late_pong_warns = (if late then inc32 s.late_pong_warns else s.late_pong_warns);
        next_ping_at = add64 now s.to.ping_interval_ms;
      }
      else close bad_state s

module _ {ext : External} (rb : RadioBackend) where
  unfoldable pub configure_backend :
      ℕ → RadioConfig → Session ext × rb.Backend → Session ext × rb.Backend
  configure_backend now requested (s, b) =
      let (token, b') = rb.begin_configure now requested b in
      if token == 0 then (refuse_config cfg_unsupported s, b') else (
        arm now s.to.config_ms config_timeout
            (record s { config_op_token = token; requested_cfg = requested; phase = configuring }),
        b',
      )

  unfoldable pub handle_configure :
      ℕ → XrFrame → Session ext × rb.Backend → Session ext × rb.Backend
  handle_configure now f (s, b) =
      if f.type == msg_configure
      then elim (ext.decode_config f) [
        | none ↦ (refuse_config cfg_invalid s, b)
        | some requested ↦
            if ext.radio_config_valid requested
            then configure_backend now requested (s, b)
            else (refuse_config cfg_invalid s, b)
      ]
      else (close bad_state s, b)

  unfoldable pub handle_tx_request :
      ℕ → XrFrame → Session ext × rb.Backend → Session ext × rb.Backend
  handle_tx_request now f (s, b) =
      let (taken, b') = rb.submit_tx f.payload b in
      let asked = record s { tx_seq = f.seq } in
      if s.tx_in_flight
      then (close bad_state s, b)
      else if taken
      then (record asked { tx_in_flight = true; tx_deadline_at = add64 now s.to.tx_ms }, b')
      else (close backend_failure asked, b')

  unfoldable pub handle_ready_frame :
      ℕ → XrFrame → Session ext × rb.Backend → Session ext × rb.Backend
  handle_ready_frame now f (s, b) =
      if f.type == msg_pong
      then (handle_pong now s, b)
      else if f.type == msg_tx_request
      then handle_tx_request now f (s, b)
      else (close bad_state s, b)

  unfoldable pub handle_phase : ℕ → XrFrame → Session ext × rb.Backend → Session ext × rb.Backend
  handle_phase now f (s, b) = elim s.phase [
    | wait_hello ↦ (handle_hello now f s, b)
    | wait_auth ↦ (handle_auth now f s, b)
    | wait_configure ↦ handle_configure now f (s, b)
    | configuring ↦ (close bad_state s, b)
    | ready ↦ handle_ready_frame now f (s, b)
    | closed ↦ (s, b)
  ]

  unfoldable pub handle_frame : ℕ → XrFrame → Session ext × rb.Backend → Session ext × rb.Backend
  handle_frame now f (s, b) =
      if not (ext.validate f == 0)
      then (close malformed_frame s, b)
      else if not (is_client_message f.type)
      then (close bad_state s, b)
      else if f.type == msg_error
      then (close remote_error s, b)
      else handle_phase now f (s, b)
