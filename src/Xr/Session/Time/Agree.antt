-- ===== src/Xr/Session/Time/Agree.antt =====
-- A session and its backend agree behind a tick.
use meshcom_loraham_bridge.Prelude.{
  ℕ, ◌&&◌, leb, if◌then◌else◌, ◌≡◌, refl, inl, inr, sym, subst, arith, if_rule, if_split,
}
use meshcom_loraham_bridge.Radio.{RadioBackend}
use meshcom_loraham_bridge.Loraham.Backend.View.{View, busy}
use meshcom_loraham_bridge.Xr.Codec.{External}
use meshcom_loraham_bridge.Xr.Session.{
  Session, Phase, wait_hello, wait_auth, wait_configure, configuring, ready, closed,
  tx_timeout_uncertain, close,
}
use meshcom_loraham_bridge.Xr.Session.View.{
  seen, Within, close_gone, emit-Emits, then_emitted-Within,
}
use meshcom_loraham_bridge.Xr.Session.Agree.{ViewLaws, Agree, near, ended}
use meshcom_loraham_bridge.Xr.Session.Time.{
  await_pong, send_ping, keep_alive, is_due, tick_ready, tick,
}

module _ {ext : External} where
  send_ping-Within : (now : ℕ) (s : Session ext) → Within (seen s) (send_ping now s)
  unfolding send_ping await_pong
  send_ping-Within now s =
      then_emitted-Within (seen s) s _ _ (emit-Emits _ _ _ s)
        (λ s' h. inl (ground (arith, h.0, h.1, h.2)))

  keep_alive-Within : (now : ℕ) (s : Session ext) → Within (seen s) (keep_alive now s)
  unfolding keep_alive
  keep_alive-Within now s =
      if_rule (Within (seen s)) s.awaiting_pong _ _
        (if_rule (Within (seen s)) (leb s.pong_deadline_at now) _ _ (inr (close_gone _ s))
          (inl refl))
        (if_rule (Within (seen s)) (leb s.next_ping_at now) _ _ (send_ping-Within now s) (inl refl))

module _ {ext : External} (rb : RadioBackend) (F : View → rb.Backend → Type 0)
    (P : rb.Backend → Type 0) (laws : ViewLaws rb F P) where
  abbrev Agrees : Session ext × rb.Backend → Type 0
  Agrees = Agree rb F P laws

  tick_ready-Agree :
      (now : ℕ) (s : Session ext) (b : rb.Backend)
      → s.phase ≡ ready
      → Agrees (s, b)
      → Agrees (tick_ready rb now (s, b))
  unfolding tick_ready
  tick_ready-Agree now s b p h =
      if_split Agrees (s.tx_in_flight && leb s.tx_deadline_at now) _ _
        (λ e.
          let view : seen s ≡ busy = ground (arith, p, e) in
          ended rb F P laws (close tx_timeout_uncertain s) _ (close_gone tx_timeout_uncertain s)
            (laws.abandons now b (subst (λ (x : View). F x b) view h)))
        (λ e. near rb F P laws (seen s) (keep_alive now s) b (keep_alive-Within now s) h)

  expired-Agree :
      (s : Session ext) (b : rb.Backend) → Agrees (s, b) → Agrees (close s.deadline_reason s, b)
  expired-Agree s b h =
      ended rb F P laws (close s.deadline_reason s) b (close_gone s.deadline_reason s)
        (laws.ends (seen s) b h)

  -- What tick does in a phase.
  abbrev tick_at : ℕ → Session ext → rb.Backend → Phase → Session ext × rb.Backend
  tick_at now s b closed = (s, b)
  tick_at now s b ready =
      if is_due now s then (close s.deadline_reason s, b) else tick_ready rb now (s, b)
  tick_at now s b _ = if is_due now s then (close s.deadline_reason s, b) else (s, b)

  tick_phase :
      (now : ℕ) (s : Session ext) (b : rb.Backend) → tick rb now (s, b) ≡ tick_at now s b s.phase
  unfolding tick
  tick_phase now s b = ground arith

  tick_at-Agree :
      (p : Phase) (now : ℕ) (s : Session ext) (b : rb.Backend)
      → s.phase ≡ p
      → Agrees (s, b)
      → Agrees (tick_at now s b p)
  tick_at-Agree closed now s b e h = h
  tick_at-Agree ready now s b e h =
      if_rule Agrees (is_due now s) _ _ (expired-Agree s b h) (tick_ready-Agree now s b e h)
  tick_at-Agree wait_hello now s b e h = if_rule Agrees (is_due now s) _ _ (expired-Agree s b h) h
  tick_at-Agree wait_auth now s b e h = if_rule Agrees (is_due now s) _ _ (expired-Agree s b h) h
  tick_at-Agree wait_configure now s b e h =
      if_rule Agrees (is_due now s) _ _ (expired-Agree s b h) h
  tick_at-Agree configuring now s b e h = if_rule Agrees (is_due now s) _ _ (expired-Agree s b h) h

  pub tick-Agree :
      (now : ℕ) (s : Session ext) (b : rb.Backend) → Agrees (s, b) → Agrees (tick rb now (s, b))
  tick-Agree now s b h =
      subst Agrees (sym (tick_phase now s b)) (tick_at-Agree s.phase now s b refl h)
