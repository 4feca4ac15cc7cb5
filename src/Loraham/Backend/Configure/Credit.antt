-- ===== src/Loraham/Backend/Configure/Credit.antt =====
-- The configuration reports no result of a transmission.
use meshcom_loraham_bridge.Prelude.{
  ℕ, ◌≤◌, true, false, [], length, ◌≡◌, refl, arith, inc32, if_rule,
}
use meshcom_loraham_bridge.Loraham.Link.{
  TxFlush, complete, partial, flush_failed, conf_reads, poll_connect,
}
use meshcom_loraham_bridge.Loraham.Backend.{Backend, configuring, ready}
use meshcom_loraham_bridge.Loraham.Backend.Conf.{
  ConfResult, conf_idle, conf_status, conf_failed, pump_conf, max_conf_line,
}
use meshcom_loraham_bridge.Loraham.Backend.Conf.Keeps.{ConfRun, conf_loop-ConfRun}
use meshcom_loraham_bridge.Loraham.Backend.Configure.{
  config_succeed, config_fail, write_commands, read_status, after_status, mark_written, after_write,
  advance_configure, advance_connect,
}
use meshcom_loraham_bridge.Loraham.Backend.Credit.{AtMost, emit_config-AtMost, reset-AtMost}

module _ (n : ℕ) where
  pub config_fail-AtMost : (b : Backend) → AtMost n b → AtMost n (config_fail b)
  unfolding config_fail
  config_fail-AtMost b h = emit_config-AtMost n _ _ _ (reset-AtMost n b (omega (arith, h.spent)))

  config_succeed-AtMost : (b : Backend) → AtMost n b → AtMost n (config_succeed b)
  unfolding config_succeed
  config_succeed-AtMost b h =
      let idle : Backend = record b {
        state = ready;
        tx_epoch = inc32 b.tx_epoch;
        conf_out = [];
        conf_out_off = 0;
        awaiting_status = false;
      } in
      emit_config-AtMost n idle _ _ (ground arith)

  pub ConfRun-AtMost :
      (b : Backend) (r : ConfResult) (c : Backend) → AtMost n b → ConfRun b (r, c) → AtMost n c
  ConfRun-AtMost b r c h (reads, line, e, _) = ground arith

  after_status-AtMost : (r : ConfResult) (b : Backend) → AtMost n b → AtMost n (after_status (r, b))
  unfolding after_status
  after_status-AtMost conf_failed b h = config_fail-AtMost b h
  after_status-AtMost conf_idle b h = h
  after_status-AtMost (conf_status true) b h = config_succeed-AtMost b h
  after_status-AtMost (conf_status false) b h = config_fail-AtMost b h

  read_status-AtMost :
      (b : Backend) → AtMost n b → length b.conf_line ≤ max_conf_line → AtMost n (read_status b)
  unfolding read_status pump_conf
  read_status-AtMost b h k =
      let run = conf_loop-ConfRun true (conf_reads b.link) b k in
      if_rule (AtMost n) b.awaiting_status _ b
        (after_status-AtMost _ _ (ConfRun-AtMost b (pump_conf true b).0 (pump_conf true b).1 h run))
        h

  mark_written-AtMost : (b : Backend) → AtMost n b → AtMost n (mark_written b)
  unfolding mark_written
  mark_written-AtMost b h = ground arith

  mark_written_line : (b : Backend) → (mark_written b).conf_line ≡ b.conf_line
  unfolding mark_written
  mark_written_line b = ground arith

  after_write-AtMost :
      (flush : TxFlush) (b : Backend)
      → AtMost n b
      → length b.conf_line ≤ max_conf_line
      → AtMost n (after_write flush b)
  unfolding after_write
  after_write-AtMost flush_failed b h k = config_fail-AtMost b h
  after_write-AtMost complete b h k =
      read_status-AtMost (mark_written b) (mark_written-AtMost b h) (rw (mark_written_line b) k)
  after_write-AtMost partial b h k =
      read_status-AtMost (mark_written b) (mark_written-AtMost b h) (rw (mark_written_line b) k)

  write_commands-AtMost : (b : Backend) → AtMost n b → AtMost n (write_commands b).1
  unfolding write_commands
  write_commands-AtMost b h = ground arith

  write_commands_line : (b : Backend) → (write_commands b).1.conf_line ≡ b.conf_line
  unfolding write_commands
  write_commands_line b = refl

  pub advance_configure-AtMost :
      (b : Backend)
      → AtMost n b
      → length b.conf_line ≤ max_conf_line
      → AtMost n (advance_configure b)
  unfolding advance_configure
  advance_configure-AtMost b h k =
      after_write-AtMost _ _ (write_commands-AtMost b h) (rw (write_commands_line b) k)

  pub advance_connect-AtMost :
      (b : Backend) → AtMost n b → length b.conf_line ≤ max_conf_line → AtMost n (advance_connect b)
  unfolding advance_connect poll_connect
  advance_connect-AtMost b h k =
      let l = (poll_connect b.link).1 in
      let b' : Backend = record b { link = l } in
      let next : Backend = record b' { state = configuring } in
      let h' : AtMost n b' = ground arith in
      let h'' : AtMost n next = ground arith in
      ground (arith, config_fail-AtMost b' h', advance_configure-AtMost next h'' k)
