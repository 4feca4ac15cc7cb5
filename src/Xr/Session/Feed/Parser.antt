-- ===== src/Xr/Session/Feed/Parser.antt =====
-- handle_frame leaves the parser alone.
use meshcom_loraham_bridge.Prelude.{
  ℕ, Bool, true, false, Option, none, some, [], ◌∷◌, ◌≡◌, refl, arith, Bytes, if◌then◌else◌, ap,
  sym, ◌∙◌,
}
use meshcom_loraham_bridge.Radio.{RadioBackend}
use meshcom_loraham_bridge.Xr.Codec.{
  External, XrFrame, msg_auth_result, msg_auth_challenge, msg_config_result, msg_hello_ack, version,
  auth_fail, cfg_unsupported, cfg_invalid,
}
use meshcom_loraham_bridge.Auth.{password_configured}
use meshcom_loraham_bridge.Xr.Session.{
  Session, is_closed, CloseReason, malformed_frame, bad_state, remote_error, auth_failed,
  auth_error, auth_timeout, wait_auth, config_failed, close, emit, arm,
}
use meshcom_loraham_bridge.Xr.Session.Handle.{
  then_emitted, next_nonce, admit, challenge_with, challenge, handle_hello, handle_auth,
  refuse_config, configure_backend, handle_configure, handle_pong, handle_tx_request,
  handle_ready_frame, handle_phase, handle_frame,
}

module _ {ext : External} where
  close_parser : (r : CloseReason) (s : Session ext) → (close r s).parser ≡ s.parser
  unfolding close is_closed
  close_parser r s = ground arith

  emit_parser :
      (type seq : ℕ) (payload : Bytes) (s : Session ext)
      → (emit type seq payload s).1.parser ≡ s.parser
  unfolding emit close is_closed
  emit_parser type seq payload s = ground arith

  then_emitted_parser :
      (type seq : ℕ) (payload : Bytes) (s : Session ext) (next : Session ext → Session ext)
      → ((s' : Session ext) → (next s').parser ≡ s'.parser)
      → (then_emitted (emit type seq payload s) next).parser ≡ s.parser
  then_emitted_parser type seq payload s next h = on (emit type seq payload s) refl
    where
      on :
          (r : Bool × Session ext)
          → emit type seq payload s ≡ r
          → (then_emitted r next).parser ≡ s.parser
      on (true, s') e =
          h s'
          ∙ ap (λ (x : Bool × Session ext). x.1.parser) (sym e)
          ∙ emit_parser type seq payload s
      on (false, s') e =
          ap (λ (x : Bool × Session ext). x.1.parser) (sym e) ∙ emit_parser type seq payload s

  arm_parser : (now t : ℕ) (r : CloseReason) (s : Session ext) → (arm now t r s).parser ≡ s.parser
  unfolding arm
  arm_parser now t r s = refl

  admit_parser : (now : ℕ) (s : Session ext) → (admit now s).parser ≡ s.parser
  unfolding admit arm
  admit_parser now s = then_emitted_parser _ _ _ s _ (λ s'. refl)

  challenge_with_parser :
      (now : ℕ) (n : Option Bytes) (s : Session ext) → (challenge_with now n s).parser ≡ s.parser
  unfolding challenge_with
  challenge_with_parser now none s = close_parser auth_error s
  challenge_with_parser now (some bytes) s =
      then_emitted_parser msg_auth_challenge 0 bytes (record s { nonce = bytes })
        (λ s'. arm now s'.to.auth_ms auth_timeout (record s' { phase = wait_auth }))
        (λ s'. arm_parser now s'.to.auth_ms auth_timeout (record s' { phase = wait_auth }))

  challenge_parser : (now : ℕ) (s : Session ext) → (challenge now s).parser ≡ s.parser
  unfolding challenge
  challenge_parser now s =
      challenge_with_parser now (next_nonce s.nonces).0
        (record s { nonces = (next_nonce s.nonces).1 })

  welcome_parser :
      (now : ℕ) (s : Session ext)
      → (if password_configured s.auth then challenge now s else admit now s).parser ≡ s.parser
  welcome_parser now s = ground (arith, challenge_parser now s, admit_parser now s)

  handle_hello_parser :
      (now : ℕ) (f : XrFrame) (s : Session ext) → (handle_hello now f s).parser ≡ s.parser
  unfolding handle_hello
  handle_hello_parser now f s = ground (
    arith,
    then_emitted_parser msg_hello_ack 0 (version ∷ []) s
        (λ (s' : Session ext).
          if password_configured s'.auth then challenge now s' else admit now s')
        (λ s'. welcome_parser now s'),
    close_parser bad_state s,
  )

  refuse_config_parser : (code : ℕ) (s : Session ext) → (refuse_config code s).parser ≡ s.parser
  unfolding refuse_config
  refuse_config_parser code s =
      close_parser config_failed (emit msg_config_result 0 (code ∷ []) s).1
      ∙ emit_parser msg_config_result 0 (code ∷ []) s

  reject_parser :
      (s : Session ext)
      → (close auth_failed (emit msg_auth_result 0 (auth_fail ∷ []) s).1).parser ≡ s.parser
  reject_parser s =
      close_parser auth_failed (emit msg_auth_result 0 (auth_fail ∷ []) s).1
      ∙ emit_parser msg_auth_result 0 (auth_fail ∷ []) s

  handle_auth_parser :
      (now : ℕ) (f : XrFrame) (s : Session ext) → (handle_auth now f s).parser ≡ s.parser
  unfolding handle_auth
  handle_auth_parser now f s =
      ground (arith, admit_parser now s, reject_parser s, close_parser bad_state s)

module _ {ext : External} (rb : RadioBackend) where
  handle_configure_parser :
      (now : ℕ) (f : XrFrame) (s : Session ext) (b : rb.Backend)
      → (handle_configure rb now f (s, b)).0.parser ≡ s.parser
  unfolding handle_configure configure_backend arm
  handle_configure_parser now f s b = ground (
    arith,
    refuse_config_parser cfg_unsupported s,
    refuse_config_parser cfg_invalid s,
    close_parser bad_state s,
  )

  handle_ready_parser :
      (now : ℕ) (f : XrFrame) (s : Session ext) (b : rb.Backend)
      → (handle_ready_frame rb now f (s, b)).0.parser ≡ s.parser
  unfolding handle_ready_frame handle_pong handle_tx_request close is_closed
  handle_ready_parser now f s b = ground arith

  pub handle_frame_parser :
      (now : ℕ) (f : XrFrame) (s : Session ext) (b : rb.Backend)
      → (handle_frame rb now f (s, b)).0.parser ≡ s.parser
  unfolding handle_frame handle_phase
  handle_frame_parser now f s b = ground (
    arith,
    close_parser malformed_frame s,
    close_parser bad_state s,
    close_parser remote_error s,
    handle_hello_parser now f s,
    handle_auth_parser now f s,
    handle_configure_parser now f s b,
    handle_ready_parser now f s b,
  )
