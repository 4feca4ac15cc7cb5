-- ===== src/Loraham/Backend/Poll/Outcome.antt =====
-- A poll of a backend that connects or configures.
use meshcom_loraham_bridge.Prelude.{
  ℕ, ◌<◌, true, false, [], ◌∷◌, ◌≡◌, ◌⊎◌, inl, inr, arith, leb, Bool-cases,
}
use meshcom_loraham_bridge.Radio.{zero_config, configure_complete}
use meshcom_loraham_bridge.Loraham.Backend.{Backend, disconnected, connecting, configuring}
use meshcom_loraham_bridge.Loraham.Backend.Invariant.{Inv}
use meshcom_loraham_bridge.Loraham.Backend.Configure.{config_fail}
use meshcom_loraham_bridge.Loraham.Backend.Configure.Outcome.{
  Underway, Outcome, EndsSo, config_fail-Outcome, advance_configure-EndsSo, advance_connect-EndsSo,
}
use meshcom_loraham_bridge.Loraham.Backend.Poll.{poll, poll_step}

fresh-Underway :
    (b : Backend)
    → (b.state ≡ connecting) ⊎ (b.state ≡ configuring)
    → b.sink ≡ true
    → Underway b.config_token b.pending_cfg (record b { events = [] })
fresh-Underway b w h = ground arith

expired :
    (now : ℕ) (b : Backend)
    → (b.state ≡ connecting) ⊎ (b.state ≡ configuring)
    → leb b.config_deadline_at now ≡ true
    → poll_step now b ≡ config_fail b
unfolding poll_step
expired now b w e = ground arith

in_time :
    (now : ℕ) (b : Backend)
    → Inv b
    → (b.state ≡ connecting) ⊎ (b.state ≡ configuring)
    → b.sink ≡ true
    → leb b.config_deadline_at now ≡ false
    → EndsSo b.config_token b.pending_cfg (poll_step now (record b { events = [] }))
unfolding poll_step
in_time now b v w h e =
    let fresh : Backend = record b { events = [] } in
    let u = fresh-Underway b w h in
    ground (
      arith,
      advance_connect-EndsSo b.config_token b.pending_cfg fresh u v.line_bounded,
      advance_configure-EndsSo b.config_token b.pending_cfg fresh u v.line_bounded,
    )

-- A poll of a backend that connects or configures, with a sink: it goes on without a call of the
-- sink, it is ready and has reported success for the token at hand, with the configuration that was
-- asked for, or it is disconnected and has reported failure for that token. It does not go on if the
-- deadline is over.
pub poll_configuring :
    (now : ℕ) (b : Backend)
    → Inv b
    → (b.state ≡ connecting) ⊎ (b.state ≡ configuring)
    → b.sink ≡ true
    → let (b', events) = poll now b in
      Outcome b.config_token b.pending_cfg b'.state events
      × ((now < b.config_deadline_at)
          ⊎ ((b'.state ≡ disconnected)
              × (events
                  ≡ configure_complete b.config_token
                      (record { applied = false; effective = zero_config })
                    ∷ [])))
unfolding poll
poll_configuring now b v w h =
    let fresh : Backend = record b { events = [] } in
    let u = fresh-Underway b w h in
    elim (Bool-cases (leb b.config_deadline_at now)) [
      | inl e ↦
          let late = expired now fresh w e in
          let end = config_fail-Outcome b.config_token b.pending_cfg fresh u in
          rw late (inr (inr end), inr end)
      | inr e ↦ (in_time now b v w h e, inl (ground (arith, e)))
    ]
