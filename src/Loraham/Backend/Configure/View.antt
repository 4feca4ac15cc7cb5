-- ===== src/Loraham/Backend/Configure/View.antt =====
-- A configuration that goes on is still the one of the same token.
use meshcom_loraham_bridge.Prelude.{ℕ, ◌≤◌, true, false, length, ◌≡◌, arith, if_rule}
use meshcom_loraham_bridge.Loraham.Link.{
  TxFlush, complete, partial, flush_failed, conf_reads, poll_connect,
}
use meshcom_loraham_bridge.Loraham.Backend.{Backend, configuring, emit, reset_link_unconfigured}
use meshcom_loraham_bridge.Loraham.Backend.Conf.{
  ConfResult, conf_idle, conf_status, conf_failed, pump_conf, max_conf_line,
}
use meshcom_loraham_bridge.Loraham.Backend.Conf.Keeps.{ConfRun, conf_loop-ConfRun}
use meshcom_loraham_bridge.Loraham.Backend.Configure.{
  config_succeed, config_fail, write_commands, read_status, after_status, mark_written, after_write,
  advance_configure, advance_connect,
}

module _ (t : ℕ) where
  -- The token, and a CONF line within its bound.
  abbrev For : Backend → Type 0
  For b = (b.config_token ≡ t) × (length b.conf_line ≤ max_conf_line)

  pub config_fail_token : (b : Backend) → b.config_token ≡ t → (config_fail b).config_token ≡ t
  unfolding config_fail emit reset_link_unconfigured
  config_fail_token b e = ground arith

  config_succeed_token : (b : Backend) → b.config_token ≡ t → (config_succeed b).config_token ≡ t
  unfolding config_succeed emit
  config_succeed_token b e = ground arith

  after_status_token :
      (r : ConfResult) (b : Backend) → b.config_token ≡ t → (after_status (r, b)).config_token ≡ t
  unfolding after_status
  after_status_token conf_failed b e = config_fail_token b e
  after_status_token conf_idle b e = e
  after_status_token (conf_status true) b e = config_succeed_token b e
  after_status_token (conf_status false) b e = config_fail_token b e

  ConfRun-token :
      (b : Backend) (r : ConfResult) (c : Backend)
      → b.config_token ≡ t
      → ConfRun b (r, c)
      → c.config_token ≡ t
  ConfRun-token b r c e (reads, line, e', _) = rw e' e

  read_status_token : (b : Backend) → For b → (read_status b).config_token ≡ t
  unfolding read_status pump_conf
  read_status_token b (e, k) =
      let run = conf_loop-ConfRun true (conf_reads b.link) b k in
      if_rule (λ (x : Backend). x.config_token ≡ t) b.awaiting_status _ b
        (after_status_token _ _ (ConfRun-token b (pump_conf true b).0 (pump_conf true b).1 e run)) e

  mark_written-For : (b : Backend) → For b → For (mark_written b)
  unfolding mark_written
  mark_written-For b h = ground arith

  after_write_token : (f : TxFlush) (b : Backend) → For b → (after_write f b).config_token ≡ t
  unfolding after_write
  after_write_token flush_failed b h = config_fail_token b h.0
  after_write_token complete b h = read_status_token _ (mark_written-For b h)
  after_write_token partial b h = read_status_token _ (mark_written-For b h)

  pub advance_configure_token : (b : Backend) → For b → (advance_configure b).config_token ≡ t
  unfolding advance_configure write_commands
  advance_configure_token b h = after_write_token _ (write_commands b).1 h

  pub advance_connect_token : (b : Backend) → For b → (advance_connect b).config_token ≡ t
  unfolding advance_connect poll_connect
  advance_connect_token b h =
      let b' : Backend = record b { link = (poll_connect b.link).1 } in
      ground (
        arith,
        config_fail_token b' h.0,
        advance_configure_token (record b' { state = configuring }) h,
      )
