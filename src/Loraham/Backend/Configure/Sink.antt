-- ===== src/Loraham/Backend/Configure/Sink.antt =====
-- Configuring does not change to whom the backend reports.
use meshcom_loraham_bridge.Prelude.{ℕ, ◌≤◌, Bool, true, false, length, arith, if_rule}
use meshcom_loraham_bridge.Radio.{RadioConfig}
use meshcom_loraham_bridge.Loraham.Link.{
  TxFlush, complete, partial, flush_failed, conf_reads, poll_connect,
}
use meshcom_loraham_bridge.Loraham.Framing.{parser_reset}
use meshcom_loraham_bridge.Loraham.Backend.{Backend, emit, configuring}
use meshcom_loraham_bridge.Loraham.Backend.Conf.{
  max_conf_line, ConfResult, conf_idle, conf_status, conf_failed, pump_conf,
}
use meshcom_loraham_bridge.Loraham.Backend.Conf.Keeps.{ConfRun, conf_loop-ConfRun}
use meshcom_loraham_bridge.Loraham.Backend.Receive.Sink.{SinkIs, emit-SinkIs, reset-SinkIs}
use meshcom_loraham_bridge.Loraham.Backend.Configure.{
  begin_configure, config_succeed, config_fail, write_commands, after_status, read_status,
  mark_written, after_write, advance_configure, advance_connect,
}

module _ (k : Bool) where
  pub begin_configure-SinkIs :
      (now : ℕ) (cfg : RadioConfig) (b : Backend)
      → SinkIs k b
      → SinkIs k (begin_configure now cfg b).1
  unfolding begin_configure parser_reset
  begin_configure-SinkIs now cfg b v = ground arith

  config_succeed-SinkIs : (b : Backend) → SinkIs k b → SinkIs k (config_succeed b)
  unfolding config_succeed emit
  config_succeed-SinkIs b v = ground arith

  pub config_fail-SinkIs : (b : Backend) → SinkIs k b → SinkIs k (config_fail b)
  unfolding config_fail
  config_fail-SinkIs b v = emit-SinkIs k _ _ (reset-SinkIs k b v)

  pub conf-SinkIs :
      (b : Backend) (r : ConfResult) (c : Backend) → ConfRun b (r, c) → SinkIs k b → SinkIs k c
  conf-SinkIs b r c (reads, line, e, _) v = rw e (record { sink = v.sink; fits = v.fits })

  pub pump_conf-SinkIs :
      (awaiting : Bool) (b : Backend)
      → length b.conf_line ≤ max_conf_line
      → SinkIs k b
      → SinkIs k (pump_conf awaiting b).1
  unfolding pump_conf
  pump_conf-SinkIs awaiting b h v =
      conf-SinkIs b _ _ (conf_loop-ConfRun awaiting (conf_reads b.link) b h) v

  after_status-SinkIs : (r : ConfResult) (b : Backend) → SinkIs k b → SinkIs k (after_status (r, b))
  unfolding after_status
  after_status-SinkIs conf_failed b v = config_fail-SinkIs b v
  after_status-SinkIs conf_idle b v = v
  after_status-SinkIs (conf_status true) b v = config_succeed-SinkIs b v
  after_status-SinkIs (conf_status false) b v = config_fail-SinkIs b v

  -- Both are kept on the way.
  abbrev Fine : Backend → Type 0
  Fine b = (length b.conf_line ≤ max_conf_line) × SinkIs k b

  read_status-SinkIs : (b : Backend) → Fine b → SinkIs k (read_status b)
  unfolding read_status
  read_status-SinkIs b (h, v) =
      if_rule (SinkIs k) b.awaiting_status _ _
        (after_status-SinkIs (pump_conf true b).0 (pump_conf true b).1
          (pump_conf-SinkIs true b h v))
        v

  mark_written-Fine : (b : Backend) → Fine b → Fine (mark_written b)
  unfolding mark_written
  mark_written-Fine b v = ground arith

  after_write-SinkIs : (f : TxFlush) (b : Backend) → Fine b → SinkIs k (after_write f b)
  unfolding after_write
  after_write-SinkIs flush_failed b v = config_fail-SinkIs b v.1
  after_write-SinkIs complete b v = read_status-SinkIs _ (mark_written-Fine b v)
  after_write-SinkIs partial b v = read_status-SinkIs _ (mark_written-Fine b v)

  pub advance_configure-SinkIs : (b : Backend) → Fine b → SinkIs k (advance_configure b)
  unfolding advance_configure write_commands
  advance_configure-SinkIs b (h, v) =
      after_write-SinkIs (write_commands b).0.flush (write_commands b).1
        (h, record { sink = v.sink; fits = v.fits })

  pub advance_connect-SinkIs : (b : Backend) → Fine b → SinkIs k (advance_connect b)
  unfolding advance_connect poll_connect
  advance_connect-SinkIs b (h, v) =
      let l = (poll_connect b.link).1 in
      let next : Backend = record b { link = l; state = configuring } in
      ground (
        arith,
        config_fail-SinkIs (record b { link = l }) (record { sink = v.sink; fits = v.fits }),
        advance_configure-SinkIs next (h, record { sink = v.sink; fits = v.fits }),
      )
