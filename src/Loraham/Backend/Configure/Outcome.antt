-- ===== src/Loraham/Backend/Configure/Outcome.antt =====
-- How a configuration ends, and what it reports.
use meshcom_loraham_bridge.Prelude.{
  ℕ, ◌≤◌, true, false, List, [], ◌∷◌, length, ◌≡◌, ◌⊎◌, inl, inr, arith, if_rule,
}
use meshcom_loraham_bridge.Radio.{RadioConfig, zero_config, SinkEvent, configure_complete}
use meshcom_loraham_bridge.Loraham.Link.{
  TxFlush, complete, partial, flush_failed, conf_reads, poll_connect,
}
use meshcom_loraham_bridge.Loraham.Backend.{
  Backend, State, disconnected, connecting, configuring, ready, emit, reset_link_unconfigured,
}
use meshcom_loraham_bridge.Loraham.Backend.Conf.{
  ConfResult, conf_idle, conf_status, conf_failed, pump_conf, max_conf_line,
}
use meshcom_loraham_bridge.Loraham.Backend.Conf.Keeps.{ConfRun, conf_loop-ConfRun}
use meshcom_loraham_bridge.Loraham.Backend.Configure.{
  config_succeed, config_fail, write_commands, read_status, after_status, mark_written, after_write,
  advance_configure, advance_connect,
}

-- Under way, with the sink not called.
pub record Underway (t : ℕ) (cfg : RadioConfig) (b : Backend) : Type 0 where
  pub waits : (b.state ≡ connecting) ⊎ (b.state ≡ configuring)
  pub silent : b.events ≡ []
  pub heard : b.sink ≡ true
  pub for_token : b.config_token ≡ t
  pub for_config : b.pending_cfg ≡ cfg

-- The state and the calls of the sink together.
abbrev pub Outcome : ℕ → RadioConfig → State → List SinkEvent → Type 0
Outcome t cfg s es =
    (((s ≡ connecting) ⊎ (s ≡ configuring)) × (es ≡ []))
    ⊎ (((s ≡ ready) × (es ≡ configure_complete t (record { applied = true; effective = cfg }) ∷ []))
        ⊎ ((s ≡ disconnected)
            × (es
                ≡ configure_complete t (record { applied = false; effective = zero_config }) ∷ [])))

abbrev pub EndsSo : ℕ → RadioConfig → Backend → Type 0
EndsSo t cfg b = Outcome t cfg b.state b.events

module _ (t : ℕ) (cfg : RadioConfig) where
  Underway-EndsSo : (b : Backend) → Underway t cfg b → EndsSo t cfg b
  Underway-EndsSo b u = inl (u.waits, u.silent)

  pub config_fail-Outcome :
      (b : Backend)
      → Underway t cfg b
      → ((config_fail b).state ≡ disconnected)
        × ((config_fail b).events
            ≡ configure_complete t (record { applied = false; effective = zero_config }) ∷ [])
  unfolding config_fail emit reset_link_unconfigured
  config_fail-Outcome b u = ground arith

  config_fail-EndsSo : (b : Backend) → Underway t cfg b → EndsSo t cfg (config_fail b)
  config_fail-EndsSo b u = inr (inr (config_fail-Outcome b u))

  config_succeed-Outcome :
      (b : Backend)
      → Underway t cfg b
      → ((config_succeed b).state ≡ ready)
        × ((config_succeed b).events
            ≡ configure_complete t (record { applied = true; effective = cfg }) ∷ [])
  unfolding config_succeed emit
  config_succeed-Outcome b u = ground arith

  ConfRun-Underway :
      (b : Backend) (r : ConfResult) (c : Backend)
      → Underway t cfg b
      → ConfRun b (r, c)
      → Underway t cfg c
  ConfRun-Underway b r c u (reads, line, e, _) = ground arith

  after_status-EndsSo :
      (r : ConfResult) (b : Backend) → Underway t cfg b → EndsSo t cfg (after_status (r, b))
  unfolding after_status
  after_status-EndsSo conf_failed b u = config_fail-EndsSo b u
  after_status-EndsSo conf_idle b u = Underway-EndsSo b u
  after_status-EndsSo (conf_status true) b u = inr (inl (config_succeed-Outcome b u))
  after_status-EndsSo (conf_status false) b u = config_fail-EndsSo b u

  read_status-EndsSo :
      (b : Backend)
      → Underway t cfg b
      → length b.conf_line ≤ max_conf_line
      → EndsSo t cfg (read_status b)
  unfolding read_status pump_conf
  read_status-EndsSo b u k =
      let run = conf_loop-ConfRun true (conf_reads b.link) b k in
      if_rule (EndsSo t cfg) b.awaiting_status _ b
        (after_status-EndsSo (pump_conf true b).0 (pump_conf true b).1
          (ConfRun-Underway b _ _ u run))
        (Underway-EndsSo b u)

  mark_written-Underway :
      (b : Backend)
      → Underway t cfg b
      → Underway t cfg (mark_written b) × ((mark_written b).conf_line ≡ b.conf_line)
  unfolding mark_written
  mark_written-Underway b u = ground arith

  after_write-EndsSo :
      (flush : TxFlush) (b : Backend)
      → Underway t cfg b
      → length b.conf_line ≤ max_conf_line
      → EndsSo t cfg (after_write flush b)
  unfolding after_write
  after_write-EndsSo flush_failed b u k = config_fail-EndsSo b u
  after_write-EndsSo complete b u k =
      let (u', same) = mark_written-Underway b u in
      read_status-EndsSo (mark_written b) u' (rw same k)
  after_write-EndsSo partial b u k =
      let (u', same) = mark_written-Underway b u in
      read_status-EndsSo (mark_written b) u' (rw same k)

  write_commands-Underway :
      (b : Backend)
      → Underway t cfg b
      → Underway t cfg (write_commands b).1 × ((write_commands b).1.conf_line ≡ b.conf_line)
  unfolding write_commands
  write_commands-Underway b u = ground arith

  pub advance_configure-EndsSo :
      (b : Backend)
      → Underway t cfg b
      → length b.conf_line ≤ max_conf_line
      → EndsSo t cfg (advance_configure b)
  unfolding advance_configure
  advance_configure-EndsSo b u k =
      let (u', same) = write_commands-Underway b u in
      after_write-EndsSo _ (write_commands b).1 u' (rw same k)

  pub advance_connect-EndsSo :
      (b : Backend)
      → Underway t cfg b
      → length b.conf_line ≤ max_conf_line
      → EndsSo t cfg (advance_connect b)
  unfolding advance_connect poll_connect
  advance_connect-EndsSo b u k =
      let b' : Backend = record b { link = (poll_connect b.link).1 } in
      let next : Backend = record b' { state = configuring } in
      let u' : Underway t cfg b' = ground arith in
      let u'' : Underway t cfg next = ground arith in
      ground (
        arith,
        config_fail-EndsSo b' u',
        Underway-EndsSo b' u',
        advance_configure-EndsSo next u'' k,
      )
