-- ===== src/Xr/Session/Time/Keeps.antt =====
-- tick keeps a session's invariant, and does nothing before the next deadline.
use meshcom_loraham_bridge.Prelude.{ℕ, ◌<◌, true, [], ◌≡◌, inl, inr, arith, Bool-cases, if_rule}
use meshcom_loraham_bridge.Radio.{RadioBackend}
use meshcom_loraham_bridge.Xr.Codec.{External, XrFrame, msg_ping}
use meshcom_loraham_bridge.Xr.Session.Handle.{then_emitted}
use meshcom_loraham_bridge.Xr.Session.{
  Session, ready, tx_timeout_uncertain, pong_timeout, close, internal_error, output_overflow,
}
use meshcom_loraham_bridge.Xr.Session.Wire.{start, configured, wire_step, wire_run-snoc}
use meshcom_loraham_bridge.Xr.Session.Invariant.{SessionInv, close-SessionInv, emit_rule}
use meshcom_loraham_bridge.Xr.Session.Time.{
  sooner, deadline_of_phase, next_deadline_ms, send_ping, await_pong, keep_alive, is_due,
  tick_ready, tick,
}

module _ {ext : External} where
  pinged_Inv :
      (now : ℕ) (s : Session ext) → SessionInv s → s.phase ≡ ready → SessionInv (send_ping now s)
  unfolding send_ping await_pong wire_step
  pinged_Inv now s v p =
      emit_rule (λ r. SessionInv (then_emitted r (await_pong now))) msg_ping 0 [] s v.buffer
        (λ o k.
          ground (arith, v.log, v.reason, wire_run-snoc start configured configured s.sent ping))
        (close-SessionInv internal_error s v (λ h. cc))
        (close-SessionInv output_overflow s v (λ h. cc))
    where
      ping : XrFrame
      ping = record { type = msg_ping; seq = 0; payload = [] }

  keep_alive-Inv :
      (now : ℕ) (s : Session ext) → SessionInv s → s.phase ≡ ready → SessionInv (keep_alive now s)
  unfolding keep_alive
  keep_alive-Inv now s v p = ground (arith, close-SessionInv pong_timeout s v, pinged_Inv now s v p)

  due-Inv :
      (now : ℕ) (s : Session ext)
      → SessionInv s
      → is_due now s ≡ true
      → SessionInv (close s.deadline_reason s)
  unfolding is_due
  due-Inv now s v e = close-SessionInv s.deadline_reason s v (v.expiry (ground arith))

module _ {ext : External} (rb : RadioBackend) where
  -- Before the time that next_deadline_ms gives, tick changes neither the session nor the backend.
  pub tick_early :
      (now : ℕ) (s : Session ext) (b : rb.Backend)
      → now < next_deadline_ms s
      → tick rb now (s, b) ≡ (s, b)
  unfolding tick tick_ready is_due keep_alive next_deadline_ms sooner deadline_of_phase
  tick_early now s b h = ground arith

  tick_ready-Inv :
      (now : ℕ) (s : Session ext) (b : rb.Backend)
      → SessionInv s
      → s.phase ≡ ready
      → SessionInv (tick_ready rb now (s, b)).0
  unfolding tick_ready
  tick_ready-Inv now s b v p =
      if_rule (λ (r : Session ext × rb.Backend). SessionInv r.0) _ _ _
        (close-SessionInv tx_timeout_uncertain s v (λ h. cc)) (keep_alive-Inv now s v p)

  pub tick-Inv :
      (now : ℕ) (s : Session ext) (b : rb.Backend)
      → SessionInv s
      → SessionInv (tick rb now (s, b)).0
  unfolding tick
  tick-Inv now s b v = elim (Bool-cases (is_due now s)) [
    | inl e ↦ ground (arith, v, due-Inv now s v e)
    | inr e ↦ ground (arith, v, tick_ready-Inv now s b v)
  ]
