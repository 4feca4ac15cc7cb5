-- ===== src/Xr/Session/Events/Keeps.antt =====
-- The backend's calls of its sink keep a session's invariant.
use meshcom_loraham_bridge.Prelude.{
  ℕ, true, false, some, List, [], ◌∷◌, Bytes, ◌≡◌, inl, inr, refl, arith, Bool-cases, if_rule,
}
use meshcom_loraham_bridge.Radio.{
  TxOutcome, RxEvent, ConfigureResult, SinkEvent, rx, tx_complete, backend_failure,
  configure_complete,
}
use meshcom_loraham_bridge.Xr.Codec.{External, XrFrame, cfg_unsupported}
use meshcom_loraham_bridge.Xr.Outbox.{Buffer, IsBuffer}
use meshcom_loraham_bridge.Xr.Session.{
  Session, Phase, ready, configuring, CloseReason, internal_error, output_overflow, emit,
  enter_ready, disarm,
}
use meshcom_loraham_bridge.Xr.Session.Wire.{start, admitted, configured, wire_step, wire_run-snoc}
use meshcom_loraham_bridge.Xr.Session.Invariant.{SessionInv, close-SessionInv, queued, emit_rule}
use meshcom_loraham_bridge.Xr.Session.Handle.Keeps.{refuse_config-Inv}
use meshcom_loraham_bridge.Xr.Session.Emit.{Open, emit-Inv, handshake_Open}
use meshcom_loraham_bridge.Xr.Session.Events.{
  confirm_config, on_configure_complete, is_configuring, is_ready, on_rx, map_and_send_tx_result,
  on_tx_complete, on_backend_failure, on_event, on_events,
}

pub is_configuring_lem : (p : Phase) → is_configuring p ≡ true → p ≡ configuring
unfolding is_configuring
is_configuring_lem p e = ground arith

is_ready_lem : (p : Phase) → is_ready p ≡ true → p ≡ ready
unfolding is_ready
is_ready_lem p e = ground arith

module _ {ext : External} where
  -- A frame of the ready phase.
  pub emit_ready-Inv :
      (type seq : ℕ) (payload : Bytes) (s : Session ext)
      → SessionInv s
      → s.phase ≡ ready
      → wire_step configured (record { type = type; seq = seq; payload = payload })
        ≡ some configured
      → SessionInv (emit type seq payload s).1
  emit_ready-Inv type seq payload s v p e =
      emit_rule (λ r. SessionInv r.1) type seq payload s v.buffer
        (λ o k. ready_queued (record { type = type; seq = seq; payload = payload }) o k e)
        (close-SessionInv internal_error s v (λ h. cc))
        (close-SessionInv output_overflow s v (λ h. cc))
    where
      ready_queued :
          (f : XrFrame) (o : Buffer)
          → IsBuffer o
          → wire_step configured f ≡ some configured
          → SessionInv (queued f o s)
      ready_queued f o k e' =
          ground (arith, v.log, v.reason, wire_run-snoc start configured configured s.sent f)

  enter_ready-Inv : (now : ℕ) (s : Session ext) → Open configured s → SessionInv (enter_ready now s)
  unfolding enter_ready disarm
  enter_ready-Inv now s v = ground (arith, v.log, v.buffer)

  applied_Open :
      (res : ConfigureResult) (s : Session ext)
      → Open admitted s
      → Open admitted (record s { applied_cfg = res.effective })
  applied_Open res s v = ground (arith, v.log, v.buffer)

  confirm_config-Inv :
      (now : ℕ) (res : ConfigureResult) (s : Session ext)
      → Open admitted s
      → SessionInv (confirm_config now res s)
  unfolding confirm_config wire_step
  confirm_config-Inv now res s v =
      emit-Inv admitted configured _ _ _ _ _ (applied_Open res s v) refl
        (λ s' h. enter_ready-Inv now s' h)

  on_configure_complete-Inv :
      (now token : ℕ) (res : ConfigureResult) (s : Session ext)
      → SessionInv s
      → SessionInv (on_configure_complete now token res s)
  unfolding on_configure_complete
  on_configure_complete-Inv now token res s v = elim (Bool-cases (is_configuring s.phase)) [
    | inl e ↦
        let p = is_configuring_lem s.phase e in
        let o : Open admitted s =
          handshake_Open admitted s v (ground (arith, v.log)) (λ h. cc) (λ h. cc)
            (ground (arith, v.reason)) in
        ground (arith, refuse_config-Inv cfg_unsupported s o, confirm_config-Inv now res s o)
    | inr e ↦ rw e v
  ]

  on_rx-Inv : (r : RxEvent) (s : Session ext) → SessionInv s → SessionInv (on_rx r s)
  unfolding on_rx wire_step
  on_rx-Inv r s v = elim (Bool-cases (is_ready s.phase)) [
    | inl e ↦
        rw e (if_rule SessionInv _ _ _ v (emit_ready-Inv _ _ _ s v (is_ready_lem s.phase e) refl))
    | inr e ↦ rw e v
  ]

  landed_Inv : (s : Session ext) → SessionInv s → SessionInv (record s { tx_in_flight = false })
  landed_Inv s v = ground (arith, v.log, v.reason, v.buffer)

  on_tx_complete-Inv :
      (o : TxOutcome) (s : Session ext) → SessionInv s → SessionInv (on_tx_complete o s)
  unfolding on_tx_complete map_and_send_tx_result wire_step
  on_tx_complete-Inv o s v = elim (Bool-cases s.tx_in_flight) [
    | inl e ↦ simp e (emit_ready-Inv _ _ _ _ (landed_Inv s v) (v.flight e) refl)
    | inr e ↦ simp e v
  ]

  pub on_event-Inv :
      (now : ℕ) (e : SinkEvent) (s : Session ext) → SessionInv s → SessionInv (on_event now e s)
  unfolding on_event on_backend_failure
  on_event-Inv now (rx r) s v = on_rx-Inv r s v
  on_event-Inv now (tx_complete o) s v = on_tx_complete-Inv o s v
  on_event-Inv now backend_failure s v = close-SessionInv CloseReason.backend_failure s v (λ h. cc)
  on_event-Inv now (configure_complete token res) s v = on_configure_complete-Inv now token res s v

  pub on_events-Inv :
      (now : ℕ) (es : List SinkEvent) (s : Session ext)
      → SessionInv s
      → SessionInv (on_events now es s)
  unfolding on_events
  on_events-Inv now [] s v = v
  on_events-Inv now (e ∷ es) s v = on_events-Inv now es (on_event now e s) (on_event-Inv now e s v)
