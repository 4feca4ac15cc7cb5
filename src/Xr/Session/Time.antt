-- ===== src/Xr/Session/Time.antt =====
-- xr_session.cpp: next_deadline_ms and tick.
pub mod Keeps
pub mod Agree
pub mod Due
pub mod Meanwhile
use meshcom_loraham_bridge.Prelude.{
  ℕ, Bool, true, false, ◌&&◌, not, List, [], ◌∷◌, leb, ltb, if◌then◌else◌, add64, u64_max,
}
use meshcom_loraham_bridge.Radio.{RadioBackend}
use meshcom_loraham_bridge.Xr.Codec.{External, msg_ping}
use meshcom_loraham_bridge.Xr.Session.{
  Session, Phase, ready, closed, tx_timeout_uncertain, pong_timeout, emit, close,
}
use meshcom_loraham_bridge.Xr.Session.Handle.{then_emitted}
use meshcom_loraham_bridge.Xr.Session.Events.{is_ready}

-- `if (t < next) next = t`
sooner : ℕ → ℕ → ℕ
sooner t next = if ltb t next then t else next

module _ {ext : External} where
  deadline_of_phase : Session ext → ℕ
  unfolding sooner
  deadline_of_phase s = if s.deadline_active then sooner s.deadline_at u64_max else u64_max

  unfoldable pub next_deadline_ms : Session ext → ℕ
  unfolding sooner deadline_of_phase
  next_deadline_ms s =
      let first = deadline_of_phase s in
      let second = (if s.tx_in_flight then sooner s.tx_deadline_at first else first) in
      elim s.phase [
        | closed ↦ u64_max
        | ready ↦
            (if s.awaiting_pong
              then sooner s.pong_deadline_at second
              else sooner s.next_ping_at second)
        | _ ↦ first
      ]

  -- What follows a PING that has been queued.
  await_pong : ℕ → Session ext → Session ext
  await_pong now s = record s {
    awaiting_pong = true;
    ping_sent_at = now;
    pong_deadline_at = add64 now s.to.pong_timeout_ms;
  }

  send_ping : ℕ → Session ext → Session ext
  send_ping now s = then_emitted (emit msg_ping 0 [] s) (await_pong now)

  keep_alive : ℕ → Session ext → Session ext
  unfolding send_ping await_pong
  keep_alive now s =
      if s.awaiting_pong
      then (if leb s.pong_deadline_at now then close pong_timeout s else s)
      else if leb s.next_ping_at now
      then send_ping now s
      else s

  is_due : ℕ → Session ext → Bool
  is_due now s = s.deadline_active && leb s.deadline_at now

module _ {ext : External} (rb : RadioBackend) where
  -- What tick does in Ready behind the test of the phase's deadline.
  tick_ready : ℕ → Session ext × rb.Backend → Session ext × rb.Backend
  unfolding keep_alive
  tick_ready now (s, b) =
      if s.tx_in_flight && leb s.tx_deadline_at now
      then (close tx_timeout_uncertain s, rb.abandon_pending_tx now b)
      else (keep_alive now s, b)

  unfoldable pub tick : ℕ → Session ext × rb.Backend → Session ext × rb.Backend
  unfolding tick_ready is_due
  tick now (s, b) = elim s.phase [
    | closed ↦ (s, b)
    | ready ↦ if is_due now s then (close s.deadline_reason s, b) else tick_ready now (s, b)
    | _ ↦ if is_due now s then (close s.deadline_reason s, b) else (s, b)
  ]
