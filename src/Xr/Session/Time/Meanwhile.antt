-- ===== src/Xr/Session/Time/Meanwhile.antt =====
-- tick while a packet of the client is on the way.
use meshcom_loraham_bridge.Prelude.{ℕ, arith}
use meshcom_loraham_bridge.Radio.{RadioBackend}
use meshcom_loraham_bridge.Xr.Codec.{External}
use meshcom_loraham_bridge.Xr.Session.{Session, CloseReason, emit, internal_error, output_overflow}
use meshcom_loraham_bridge.Xr.Session.Gate.{close_phase}
use meshcom_loraham_bridge.Xr.Session.Time.{tick, tick_ready, keep_alive, send_ping, await_pong}
use meshcom_loraham_bridge.Xr.Session.Flight.Meanwhile.{Waits}

module _ {ext : External} where
  keep_alive-Waits : (seq now : ℕ) (s : Session ext) → Waits seq s → Waits seq (keep_alive now s)
  unfolding keep_alive send_ping await_pong emit
  keep_alive-Waits seq now s w = ground (
    arith,
    close_phase CloseReason.pong_timeout s,
    close_phase internal_error s,
    close_phase output_overflow s,
  )

module _ {ext : External} (rb : RadioBackend) where
  pub tick-Waits :
      (seq now : ℕ) (s : Session ext) (b : rb.Backend)
      → Waits seq s
      → Waits seq (tick rb now (s, b)).0
  unfolding tick tick_ready
  tick-Waits seq now s b w = ground (
    arith,
    w,
    close_phase s.deadline_reason s,
    close_phase CloseReason.tx_timeout_uncertain s,
    keep_alive-Waits seq now s w,
  )
