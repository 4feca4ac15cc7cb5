-- ===== src/Xr/Session/Gate.antt =====
-- The gates of a session: the password, the configuration, and the end.
use meshcom_loraham_bridge.Prelude.{
  ℕ, true, false, some, List, [], ◌∷◌, Bytes, ◌≡◌, ◌≢◌, ◌↔◌, inl, inr, refl, arith, ap, ◌∙◌,
  Option-cases, length,
}
use meshcom_loraham_bridge.Radio.{
  RadioBackend, SinkEvent, rx, tx_complete, backend_failure, configure_complete,
}
use meshcom_loraham_bridge.Auth.{
  AuthConfig, Hmac, verify_auth_response, password_configured, auth_response_size, hmac_sha256,
}
use meshcom_loraham_bridge.Loraham.Framing.{bytes_eq}
use meshcom_loraham_bridge.Xr.Codec.{
  External, XrFrame, msg_auth_response, msg_auth_result, auth_fail,
}
use meshcom_loraham_bridge.Xr.Session.{
  Session, wait_auth, wait_configure, closed, is_closed, CloseReason, close, emit, malformed_frame,
  bad_state, remote_error, auth_failed,
}
use meshcom_loraham_bridge.Xr.Session.Handle.{handle_auth, handle_phase, handle_frame}
use meshcom_loraham_bridge.Xr.Session.Events.{
  on_tx_complete, on_event, on_events, on_rx, on_configure_complete, on_backend_failure,
}
use meshcom_loraham_bridge.Xr.Session.Feed.{feed}
use meshcom_loraham_bridge.Xr.Session.Time.{tick}

bytes_eq_lem : (xs ys : Bytes) → bytes_eq xs ys ≡ true → xs ≡ ys
unfolding bytes_eq
bytes_eq_lem [] [] e = refl
bytes_eq_lem [] (y ∷ ys) e = cc
bytes_eq_lem (x ∷ xs) [] e = cc
bytes_eq_lem (x ∷ xs) (y ∷ ys) e = ground (arith, bytes_eq_lem xs ys)

bytes_eq_refl : (xs : Bytes) → bytes_eq xs xs ≡ true
unfolding bytes_eq
bytes_eq_refl [] = refl
bytes_eq_refl (x ∷ xs) = ground (arith, bytes_eq_refl xs)

-- An answer passes exactly when there is a password and the answer is the 32 bytes of the HMAC of the
-- nonce under it.
pub verify_auth_response_iff :
    (hmac : Hmac) (cfg : AuthConfig) (nonce response : Bytes)
    → (verify_auth_response hmac cfg nonce response ≡ true) ↔ (
        (cfg.password ≢ [])
        × (length response ≡ auth_response_size)
        × (hmac cfg.password nonce ≡ some response))
unfolding verify_auth_response hmac_sha256 password_configured
verify_auth_response_iff hmac cfg nonce response = elim (Option-cases (hmac cfg.password nonce)) [
  | inl e ↦ ground arith
  | inr (out, e) ↦ ground (arith, bytes_eq_lem out response, bytes_eq_refl response)
]

module _ {ext : External} where
  pub close_phase : (r : CloseReason) (s : Session ext) → (close r s).phase ≡ closed
  unfolding close is_closed
  close_phase r s = ground arith

  closed_event :
      (now : ℕ) (e : SinkEvent) (s : Session ext)
      → s.phase ≡ closed
      → s.tx_in_flight ≡ false
      → on_event now e s ≡ s
  unfolding on_event on_rx on_tx_complete on_backend_failure close is_closed on_configure_complete
  closed_event now (rx r) s p h = ground arith
  closed_event now (tx_complete o) s p h = ground arith
  closed_event now backend_failure s p h = ground arith
  closed_event now (configure_complete t r) s p h = ground arith

  closed_events :
      (now : ℕ) (es : List SinkEvent) (s : Session ext)
      → s.phase ≡ closed
      → s.tx_in_flight ≡ false
      → on_events now es s ≡ s
  unfolding on_events
  closed_events now [] s p h = refl
  closed_events now (e ∷ es) s p h =
      ap (λ (x : Session ext). on_events now es x) (closed_event now e s p h)
      ∙ closed_events now es s p h

module _ {ext : External} (rb : RadioBackend) where
  closed_feed :
      (now : ℕ) (bytes : Bytes) (s : Session ext) (b : rb.Backend)
      → s.phase ≡ closed
      → feed rb now bytes (s, b) ≡ some (s, b)
  unfolding feed is_closed
  closed_feed now bytes s b p = ground arith

  closed_tick :
      (now : ℕ) (s : Session ext) (b : rb.Backend) → s.phase ≡ closed → tick rb now (s, b) ≡ (s, b)
  unfolding tick
  closed_tick now s b p = ground arith

  -- A closed session with no transmission in flight stays as it is: input and ticks change neither
  -- it nor the backend, and nothing that the backend reports changes it.
  pub closed_stays :
      (now : ℕ) (bytes : Bytes) (es : List SinkEvent) (s : Session ext) (b : rb.Backend)
      → s.phase ≡ closed
      → s.tx_in_flight ≡ false
      → (feed rb now bytes (s, b) ≡ some (s, b))
        × (tick rb now (s, b) ≡ (s, b))
        × (on_events now es s ≡ s)
  closed_stays now bytes es s b p e =
      (closed_feed now bytes s b p, closed_tick now s b p, closed_events now es s p e)

  -- The frame that leads from wait_auth to wait_configure, if the session is in wait_auth.
  handle_auth_lem :
      (now : ℕ) (f : XrFrame) (s : Session ext)
      → s.phase ≡ wait_auth
      → (handle_auth now f s).phase ≡ wait_configure
      → (f.type ≡ msg_auth_response)
        × (verify_auth_response ext.hmac s.auth s.nonce f.payload ≡ true)
  unfolding handle_auth
  handle_auth_lem now f s p h = ground (
    arith,
    close_phase bad_state s,
    close_phase auth_failed (emit msg_auth_result 0 (auth_fail ∷ []) s).1,
  )

  handle_frame_phase :
      (now : ℕ) (f : XrFrame) (s : Session ext) (b : rb.Backend)
      → s.phase ≡ wait_auth
      → (handle_frame rb now f (s, b)).0.phase ≡ wait_configure
      → (handle_auth now f s).phase ≡ wait_configure
  unfolding handle_frame handle_phase
  handle_frame_phase now f s b p h =
      ground
        (arith, close_phase malformed_frame s, close_phase bad_state s, close_phase remote_error s)

  -- From wait_auth a frame leads to wait_configure only if it is an AUTH_RESPONSE with the HMAC of
  -- the nonce under the password.
  pub handle_frame_auth :
      (now : ℕ) (f : XrFrame) (s : Session ext) (b : rb.Backend)
      → s.phase ≡ wait_auth
      → (handle_frame rb now f (s, b)).0.phase ≡ wait_configure
      → (f.type ≡ msg_auth_response)
        × (s.auth.password ≢ [])
        × (ext.hmac s.auth.password s.nonce ≡ some f.payload)
  handle_frame_auth now f s b p h =
      let (type, passes) = handle_auth_lem now f s p (handle_frame_phase now f s b p h) in
      let (some_password, size, mac) =
        (verify_auth_response_iff ext.hmac s.auth s.nonce f.payload).0 passes in
      (type, some_password, mac)
