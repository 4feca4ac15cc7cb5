-- ===== src/Xr/Session/Handle/View.antt =====
-- What the frames of the handshake and a PONG leave of a session's view of its backend.
use meshcom_loraham_bridge.Prelude.{ℕ, ◌==◌, inl, inr, refl, Option-cases, if_rule}
use meshcom_loraham_bridge.Auth.{password_configured, verify_auth_response}
use meshcom_loraham_bridge.Loraham.Backend.View.{idle}
use meshcom_loraham_bridge.Xr.Codec.{External, XrFrame, msg_hello, msg_auth_response}
use meshcom_loraham_bridge.Xr.Session.{Session, arm}
use meshcom_loraham_bridge.Xr.Session.Handle.{
  admit, challenge, challenge_with, handle_hello, handle_auth, handle_pong, next_nonce,
}
use meshcom_loraham_bridge.Xr.Session.View.{
  seen, Within, close_gone, emit-Emits, then_emitted-Within,
}

module _ {ext : External} where
  admit-Within : (now : ℕ) (s : Session ext) → Within idle (admit now s)
  unfolding admit arm
  admit-Within now s = then_emitted-Within idle s _ _ (emit-Emits _ _ _ s) (λ s' h. inl refl)

  challenge-Within : (now : ℕ) (s : Session ext) → Within idle (challenge now s)
  unfolding challenge challenge_with arm
  challenge-Within now s = elim (Option-cases (next_nonce s.nonces).0) [
    | inl e ↦ rw e (inr (close_gone _ _))
    | inr (bytes, e) ↦
        let s' : Session ext = record s { nonces = (next_nonce s.nonces).1; nonce = bytes } in
        rw e (then_emitted-Within idle s' _ _ (emit-Emits _ _ _ s') (λ s'' h. inl refl))
  ]

  pub handle_hello-Within :
      (now : ℕ) (f : XrFrame) (s : Session ext) → Within idle (handle_hello now f s)
  unfolding handle_hello
  handle_hello-Within now f s =
      if_rule (Within idle) (f.type == msg_hello) _ _
        (then_emitted-Within idle s _ _ (emit-Emits _ _ _ s) (λ s' h.
          if_rule (Within idle) (password_configured s'.auth) _ _ (challenge-Within now s')
            (admit-Within now s')))
        (inr (close_gone _ s))

  pub handle_auth-Within :
      (now : ℕ) (f : XrFrame) (s : Session ext) → Within idle (handle_auth now f s)
  unfolding handle_auth
  handle_auth-Within now f s =
      if_rule (Within idle) (f.type == msg_auth_response) _ _
        (if_rule (Within idle) (verify_auth_response ext.hmac s.auth s.nonce f.payload) _ _
          (admit-Within now s) (inr (close_gone _ _)))
        (inr (close_gone _ s))

  pub handle_pong-Within : (now : ℕ) (s : Session ext) → Within (seen s) (handle_pong now s)
  unfolding handle_pong
  handle_pong-Within now s =
      if_rule (Within (seen s)) s.awaiting_pong _ _ (inl refl) (inr (close_gone _ s))
