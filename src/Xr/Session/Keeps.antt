-- ===== src/Xr/Session/Keeps.antt =====
-- The frames of the client keep a session's invariant.
use meshcom_loraham_bridge.Prelude.{ℕ, ◌≡◌, inl, inr, arith, Option-cases}
use meshcom_loraham_bridge.Radio.{RadioBackend, RadioConfig}
use meshcom_loraham_bridge.Xr.Codec.{External, XrFrame, cfg_unsupported, cfg_invalid}
use meshcom_loraham_bridge.Xr.Session.{
  Session, wait_configure, ready, CloseReason, malformed_frame, bad_state, remote_error, arm,
}
use meshcom_loraham_bridge.Xr.Session.Handle.{
  configure_backend, handle_configure, handle_tx_request, handle_ready_frame, handle_phase,
  handle_frame,
}
use meshcom_loraham_bridge.Xr.Session.Wire.{admitted}
use meshcom_loraham_bridge.Xr.Session.Invariant.{SessionInv, close-SessionInv}
use meshcom_loraham_bridge.Xr.Session.Emit.{Open, handshake_Open}
use meshcom_loraham_bridge.Xr.Session.Handle.Keeps.{
  handle_hello-Inv, handle_auth-Inv, refuse_config-Inv, handle_pong-Inv,
}

module _ {ext : External} (rb : RadioBackend) where
  configure_backend-Inv :
      (now : ℕ) (cfg : RadioConfig) (s : Session ext) (b : rb.Backend)
      → Open admitted s
      → SessionInv (configure_backend rb now cfg (s, b)).0
  unfolding configure_backend arm
  configure_backend-Inv now cfg s b v =
      ground (arith, v.log, v.buffer, refuse_config-Inv cfg_unsupported s v)

  handle_configure-Inv :
      (now : ℕ) (f : XrFrame) (s : Session ext) (b : rb.Backend)
      → SessionInv s
      → s.phase ≡ wait_configure
      → SessionInv (handle_configure rb now f (s, b)).0
  unfolding handle_configure
  handle_configure-Inv now f s b v p =
      let o : Open admitted s =
        handshake_Open admitted s v (ground (arith, v.log)) (λ h. cc) (λ h. cc)
          (ground (arith, v.reason)) in
      elim (Option-cases (ext.decode_config f)) [
        | inl e ↦ ground (arith, refuse_config-Inv cfg_invalid s o, close-SessionInv bad_state s v)
        | inr (cfg, e) ↦ ground (
          arith,
          refuse_config-Inv cfg_invalid s o,
          close-SessionInv bad_state s v,
          configure_backend-Inv now cfg s b o,
        )
      ]

  handle_tx_request-Inv :
      (now : ℕ) (f : XrFrame) (s : Session ext) (b : rb.Backend)
      → SessionInv s
      → s.phase ≡ ready
      → SessionInv (handle_tx_request rb now f (s, b)).0
  unfolding handle_tx_request
  handle_tx_request-Inv now f s b v p =
      let asked : Session ext = record s { tx_seq = f.seq } in
      let asked_Inv : SessionInv asked = ground (arith, v.log, v.buffer, v.reason) in
      ground (
        arith,
        v.log,
        v.buffer,
        v.reason,
        close-SessionInv bad_state s v,
        close-SessionInv CloseReason.backend_failure asked asked_Inv,
      )

  handle_ready_frame-Inv :
      (now : ℕ) (f : XrFrame) (s : Session ext) (b : rb.Backend)
      → SessionInv s
      → s.phase ≡ ready
      → SessionInv (handle_ready_frame rb now f (s, b)).0
  unfolding handle_ready_frame
  handle_ready_frame-Inv now f s b v p = ground (
    arith,
    handle_pong-Inv now s v,
    handle_tx_request-Inv now f s b v,
    close-SessionInv bad_state s v,
  )

  handle_phase-Inv :
      (now : ℕ) (f : XrFrame) (s : Session ext) (b : rb.Backend)
      → SessionInv s
      → SessionInv (handle_phase rb now f (s, b)).0
  unfolding handle_phase
  handle_phase-Inv now f s b v = ground (
    arith,
    handle_hello-Inv now f s v,
    handle_auth-Inv now f s v,
    handle_configure-Inv now f s b v,
    handle_ready_frame-Inv now f s b v,
    close-SessionInv bad_state s v,
  )

  pub handle_frame-Inv :
      (now : ℕ) (f : XrFrame) (s : Session ext) (b : rb.Backend)
      → SessionInv s
      → SessionInv (handle_frame rb now f (s, b)).0
  unfolding handle_frame
  handle_frame-Inv now f s b v = ground (
    arith,
    close-SessionInv malformed_frame s v,
    close-SessionInv bad_state s v,
    close-SessionInv remote_error s v,
    handle_phase-Inv now f s b v,
  )
