-- ===== src/Xr/Session/Handle/Keeps.antt =====
-- The handshake and a PONG keep the invariant of the session.
use meshcom_loraham_bridge.Prelude.{
  ℕ, Option, none, some, List, Bytes, ◌≡◌, ◌≢◌, ◌⊎◌, inl, inr, refl, arith, Bool-cases, ◌==◌,
  if_rule,
}
use meshcom_loraham_bridge.Auth.{password_configured, verify_auth_response}
use meshcom_loraham_bridge.Xr.Codec.{External, XrFrame, msg_hello, msg_auth_response, cfg_ok}
use meshcom_loraham_bridge.Xr.Session.{
  Session, wait_hello, wait_auth, wait_configure, bad_state, auth_failed, auth_error, config_failed,
  auth_timeout, config_timeout, arm,
}
use meshcom_loraham_bridge.Xr.Session.Handle.{
  admit, challenge_with, challenge, handle_hello, handle_auth, refuse_config, handle_pong,
}
use meshcom_loraham_bridge.Xr.Session.Wire.{
  WirePhase, start, greeted, challenged, admitted, ended, wire_step,
}
use meshcom_loraham_bridge.Xr.Session.Invariant.{SessionInv, close-Closable, close-SessionInv}
use meshcom_loraham_bridge.Xr.Session.Emit.{
  Open, Open-Closable, emit-Inv, emit-close-Inv, handshake_Open,
}

module _ {ext : External} where
  -- The phase that the frames sent so far lead to.
  enter_wait_configure :
      (now : ℕ) (s : Session ext)
      → Open admitted s
      → SessionInv (arm now s.to.config_ms config_timeout (record s { phase = wait_configure }))
  unfolding arm
  enter_wait_configure now s v = ground (arith, v.log, v.buffer)

  admit-Inv :
      (now : ℕ) (w : WirePhase) (s : Session ext)
      → Open w s
      → (w ≡ greeted) ⊎ (w ≡ challenged)
      → SessionInv (admit now s)
  unfolding admit wire_step
  admit-Inv now w s v k =
      emit-Inv w admitted _ _ _ s _ v (ground arith) (λ s' h. enter_wait_configure now s' h)

  enter_wait_auth :
      (now : ℕ) (s : Session ext)
      → Open challenged s
      → SessionInv (arm now s.to.auth_ms auth_timeout (record s { phase = wait_auth }))
  unfolding arm
  enter_wait_auth now s v = ground (arith, v.log, v.buffer)

  nonce_Open :
      (w : WirePhase) (s : Session ext) (bytes : Bytes)
      → Open w s
      → Open w (record s { nonce = bytes })
  nonce_Open w s bytes v = ground (arith, v.log, v.buffer)

  asked_Open :
      (w : WirePhase) (s : Session ext) (rest : List (Option Bytes))
      → Open w s
      → Open w (record s { nonces = rest })
  asked_Open w s rest v = ground (arith, v.log, v.buffer)

  challenge_with-Inv :
      (now : ℕ) (n : Option Bytes) (s : Session ext)
      → Open greeted s
      → SessionInv (challenge_with now n s)
  unfolding challenge_with wire_step
  challenge_with-Inv now none s v =
      close-Closable auth_error s (Open-Closable greeted s v) (λ h. cc)
  challenge_with-Inv now (some bytes) s v =
      emit-Inv greeted challenged _ _ _ _ _ (nonce_Open greeted s bytes v) refl
        (λ s' h. enter_wait_auth now s' h)

  challenge-Inv : (now : ℕ) (s : Session ext) → Open greeted s → SessionInv (challenge now s)
  unfolding challenge
  challenge-Inv now s v = challenge_with-Inv now _ _ (asked_Open greeted s _ v)

  pub handle_hello-Inv :
      (now : ℕ) (f : XrFrame) (s : Session ext)
      → SessionInv s
      → s.phase ≡ wait_hello
      → SessionInv (handle_hello now f s)
  unfolding handle_hello wire_step
  handle_hello-Inv now f s v p =
      let o : Open start s =
        handshake_Open start s v (ground (arith, v.log)) (λ h. cc) (λ h. cc)
          (ground (arith, v.reason)) in
      elim (Bool-cases (f.type == msg_hello)) [
        | inl e ↦ rw e (
            emit-Inv start greeted _ _ _ s _ o refl (λ s' h.
              elim (Bool-cases (password_configured s'.auth)) [
                | inl e' ↦ rw e' (challenge-Inv now s' h)
                | inr e' ↦ rw e' (admit-Inv now greeted s' h (inl refl))
              ]))
        | inr e ↦ rw e (close-SessionInv bad_state s v (λ h. cc))
      ]

  pub handle_auth-Inv :
      (now : ℕ) (f : XrFrame) (s : Session ext)
      → SessionInv s
      → s.phase ≡ wait_auth
      → SessionInv (handle_auth now f s)
  unfolding handle_auth wire_step
  handle_auth-Inv now f s v p =
      let o : Open challenged s =
        handshake_Open challenged s v (ground (arith, v.log)) (λ h. cc) (λ h. cc)
          (ground (arith, v.reason)) in
      elim (Bool-cases (f.type == msg_auth_response)) [
        | inl e ↦ rw e (elim (Bool-cases (verify_auth_response ext.hmac s.auth s.nonce f.payload)) [
          | inl e' ↦ rw e' (admit-Inv now challenged s o (inr refl))
          | inr e' ↦ rw e' (emit-close-Inv challenged ended _ _ _ s auth_failed o refl (λ h. cc))
        ])
        | inr e ↦ rw e (close-SessionInv bad_state s v (λ h. cc))
      ]

  -- A refusal is any code but CFG_OK.
  pub refuse_config-Inv :
      (code : ℕ) (s : Session ext)
      → Open admitted s
      → code ≢ cfg_ok
      → SessionInv (refuse_config code s)
  unfolding refuse_config wire_step
  refuse_config-Inv code s v ne =
      emit-close-Inv admitted ended _ _ _ s config_failed v (ground arith) (λ h. cc)

  pub handle_pong-Inv : (now : ℕ) (s : Session ext) → SessionInv s → SessionInv (handle_pong now s)
  unfolding handle_pong
  handle_pong-Inv now s v =
      if_rule SessionInv s.awaiting_pong _ _
        (record {
          log = v.log;
          reason = v.reason;
          timer = v.timer;
          expiry = v.expiry;
          flight = v.flight;
          buffer = v.buffer;
        })
        (close-SessionInv bad_state s v (λ h. cc))
