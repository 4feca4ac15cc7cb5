-- ===== src/Xr/Session/Time/Due.antt =====
-- tick at and behind the next deadline.
use meshcom_loraham_bridge.Prelude.{
  ℕ, ◌≤◌, ◌<◌, ◌+◌, true, false, [], ◌∷◌, ◌++◌, length, ◌≢◌, ◌≡◌, ◌⊎◌, arith, u64_max,
}
use meshcom_loraham_bridge.Radio.{RadioBackend}
use meshcom_loraham_bridge.Xr.Codec.{External, msg_ping}
use meshcom_loraham_bridge.Xr.Outbox.{IsBuffer, size, unsent, append_lem}
use meshcom_loraham_bridge.Xr.Session.{
  Session, closed, tx_timeout_uncertain, pong_timeout, emit, internal_error, output_overflow,
}
use meshcom_loraham_bridge.Xr.Session.Gate.{close_phase}
use meshcom_loraham_bridge.Xr.Session.Time.{
  sooner, deadline_of_phase, next_deadline_ms, send_ping, await_pong, keep_alive, is_due,
  tick_ready, tick,
}

-- `s` is before and `s'` behind: the session is over, since a deadline has passed or a PING has no
-- encoding or no room; or a PING is in the outbox behind all that was
-- there, as the last frame sent, and since now its PONG is awaited.
abbrev pub ClosedOrPinged : {ext : External} → ℕ → Session ext → Session ext → Type 0
ClosedOrPinged {ext} now s s' =
    ((s'.phase ≡ closed)
      × ((s.deadline_active ≡ true) × (s.deadline_at ≤ now)
          ⊎ (s.tx_in_flight ≡ true) × (s.tx_deadline_at ≤ now)
          ⊎ (s.awaiting_pong ≡ true) × (s.pong_deadline_at ≤ now)
          ⊎ (length (ext.encode msg_ping 0 []) ≡ 0)
          ⊎ (s.outbox.cap < size s.outbox + length (ext.encode msg_ping 0 []))))
    ⊎ (s'.sent ≡ s.sent ++ (record { type = msg_ping; seq = 0; payload = [] }) ∷ [])
      × (unsent s'.outbox ≡ unsent s.outbox ++ ext.encode msg_ping 0 [])
      × (length (ext.encode msg_ping 0 []) ≢ 0)
      × (s'.awaiting_pong ≡ true)
      × (s'.ping_sent_at ≡ now)

module _ {ext : External} where
  pinged_Due :
      (now : ℕ) (s : Session ext) → IsBuffer s.outbox → ClosedOrPinged now s (send_ping now s)
  unfolding send_ping await_pong emit
  pinged_Due now s v = ground (
    arith,
    append_lem (ext.encode msg_ping 0 []) s.outbox v,
    close_phase internal_error s,
    close_phase output_overflow s,
  )

  keep_alive_Due :
      (now : ℕ) (s : Session ext)
      → IsBuffer s.outbox
      → (s.awaiting_pong ≡ true → s.pong_deadline_at ≤ now)
      → (s.awaiting_pong ≡ false → s.next_ping_at ≤ now)
      → ClosedOrPinged now s (keep_alive now s)
  unfolding keep_alive
  keep_alive_Due now s v pong ping =
      ground (arith, pong, ping, close_phase pong_timeout s, pinged_Due now s v)

module _ {ext : External} (rb : RadioBackend) where
  -- If the outbox is well-formed, then from the time that next_deadline_ms gives and while the clock is
  -- below 2^64 - 1, which next_deadline_ms gives where there is no deadline, a tick sends a PING, which is encoded into the outbox behind all that was there and whose answer it
  -- then awaits, or closes the session: only where the deadline of the phase, of the transmission or
  -- of the PONG has passed, or the PING has no encoding or no room.
  pub tick_due :
      (now : ℕ) (s : Session ext) (b : rb.Backend)
      → IsBuffer s.outbox
      → next_deadline_ms s ≤ now
      → now < u64_max
      → ClosedOrPinged now s (tick rb now (s, b)).0
  unfolding tick tick_ready is_due next_deadline_ms sooner deadline_of_phase
  tick_due now s b v h l = ground (
    arith,
    close_phase s.deadline_reason s,
    keep_alive_Due now s v,
    close_phase tx_timeout_uncertain s,
  )
