-- ===== src/Loraham/Backend/Poll/Sink.antt =====
-- A poll does not change to whom the backend reports.
use meshcom_loraham_bridge.Prelude.{
  ℕ, Bool, false, [], ◌≡◌, refl, ◌∙◌, arith, if_rule, leb, if◌then◌else◌,
}
use meshcom_loraham_bridge.Loraham.Link.{TxFlush, complete, partial, flush_failed, data_reads}
use meshcom_loraham_bridge.Loraham.Backend.{
  Backend, tx_pending, set_sink, start, stop, reset_link_unconfigured,
}
use meshcom_loraham_bridge.Loraham.Backend.Conf.{
  ConfResult, conf_idle, conf_status, conf_failed, pump_conf, drain_conf_input,
}
use meshcom_loraham_bridge.Loraham.Backend.Configure.Sink.{
  config_fail-SinkIs, advance_configure-SinkIs, advance_connect-SinkIs, pump_conf-SinkIs,
  begin_configure-SinkIs,
}
use meshcom_loraham_bridge.Loraham.Backend.Configure.Keeps.{begin_configure-Inv}
use meshcom_loraham_bridge.Loraham.Backend.Transmit.{pump_tx_write}
use meshcom_loraham_bridge.Loraham.Backend.Transmit.Keeps.{submit_tx-Inv, abandon_pending_tx-Inv}
use meshcom_loraham_bridge.Loraham.Backend.Transmit.Sink.{
  pump_tx_write-SinkIs, submit_tx-SinkIs, abandon_pending_tx-SinkIs,
}
use meshcom_loraham_bridge.Loraham.Backend.Receive.{stops_operational, stops_drain}
use meshcom_loraham_bridge.Loraham.Backend.Receive.Sink.{
  SinkIs, emit-SinkIs, reset-SinkIs, enter_fault-SinkIs, handle_disconnect-SinkIs, data_loop-SinkIs,
}
use meshcom_loraham_bridge.Loraham.Backend.Invariant.{Inv, set_sink-Inv, start-Inv, stop-Inv}
use meshcom_loraham_bridge.Loraham.Backend.Poll.{
  read_data, after_resume, resume_write, after_conf, advance_operational, advance_drain, poll_step,
  poll, is_writing, loraham_backend,
}
use meshcom_loraham_bridge.Loraham.Backend.Poll.Keeps.{poll-Inv, clear-Inv}
use meshcom_loraham_bridge.Radio.{BackendLaws}

module _ (k : Bool) where
  read_data-SinkIs :
      (stops : Backend → Bool) (b : Backend) → SinkIs k b → SinkIs k (read_data stops b)
  unfolding read_data
  read_data-SinkIs stops b v = data_loop-SinkIs k stops (data_reads b.link) b v

  after_resume-SinkIs : (f : TxFlush) (b : Backend) → SinkIs k b → SinkIs k (after_resume (f, b))
  unfolding after_resume
  after_resume-SinkIs flush_failed b v = emit-SinkIs k _ _ (reset-SinkIs k b v)
  after_resume-SinkIs complete b v =
      read_data-SinkIs stops_operational (record b { state = tx_pending })
        (record { sink = v.sink; fits = v.fits })
  after_resume-SinkIs partial b v = read_data-SinkIs stops_operational b v

  go_on-SinkIs :
      (b : Backend)
      → SinkIs k b
      → SinkIs k (if is_writing b.state then resume_write b else read_data stops_operational b)
  unfolding resume_write
  go_on-SinkIs b v =
      if_rule (SinkIs k) (is_writing b.state) _ _
        (after_resume-SinkIs (pump_tx_write b).0 (pump_tx_write b).1 (pump_tx_write-SinkIs k b v))
        (read_data-SinkIs stops_operational b v)

  after_conf-SinkIs : (r : ConfResult) (b : Backend) → SinkIs k b → SinkIs k (after_conf (r, b))
  unfolding after_conf
  after_conf-SinkIs conf_failed b v = handle_disconnect-SinkIs k b v
  after_conf-SinkIs conf_idle b v = go_on-SinkIs b v
  after_conf-SinkIs (conf_status r) b v = go_on-SinkIs b v

  advance_operational-SinkIs : (b : Backend) → Inv b → SinkIs k b → SinkIs k (advance_operational b)
  unfolding advance_operational
  advance_operational-SinkIs b i v =
      after_conf-SinkIs (pump_conf false b).0 (pump_conf false b).1
        (pump_conf-SinkIs k false b i.line_bounded v)

  drained-SinkIs : (b : Backend) → SinkIs k b → SinkIs k (drain_conf_input b)
  unfolding drain_conf_input
  drained-SinkIs b v = record { sink = v.sink; fits = v.fits }

  advance_drain-SinkIs : (now : ℕ) (b : Backend) → SinkIs k b → SinkIs k (advance_drain now b)
  unfolding advance_drain
  advance_drain-SinkIs now b v =
      if_rule (SinkIs k) (leb b.drain_deadline_at now) _ _ (enter_fault-SinkIs k b v)
        (read_data-SinkIs stops_drain _ (drained-SinkIs b v))

  poll_step-SinkIs : (now : ℕ) (b : Backend) → Inv b → SinkIs k b → SinkIs k (poll_step now b)
  unfolding poll_step
  poll_step-SinkIs now b i v = ground (
    arith,
    config_fail-SinkIs k b v,
    advance_connect-SinkIs k b (i.line_bounded, v),
    advance_configure-SinkIs k b (i.line_bounded, v),
    advance_operational-SinkIs b i v,
    advance_drain-SinkIs now b v,
  )

  poll-SinkIs : (now : ℕ) (b : Backend) → Inv b → SinkIs k b → SinkIs k (poll now b).0
  unfolding poll
  poll-SinkIs now b i v =
      let clear : Backend = record b { events = [] } in
      let w =
        poll_step-SinkIs now clear (clear-Inv b i) (record { sink = v.sink; fits = v.fits }) in
      record { sink = w.sink; fits = w.fits }

-- The invariant, and a sink that is set or not.
pub record Reports (k : Bool) (b : Backend) : Type 0 where
  pub inv : Inv b
  pub sink : b.sink ≡ k

Reports-SinkIs : (k : Bool) (b : Backend) → Reports k b → SinkIs k b
Reports-SinkIs k b v = record { sink = v.sink; fits = v.inv.parser_bounded }

stop_sink : (b : Backend) → (stop b).sink ≡ b.sink
unfolding stop reset_link_unconfigured
stop_sink b = ground arith

-- LorahamBackend keeps its invariant and its sink in every call but set_sink, which sets the sink.
pub loraham-BackendLaws : BackendLaws loraham_backend Reports
unfolding set_sink start
loraham-BackendLaws = record {
  set_sink_keeps = λ k s b v. record { inv = set_sink-Inv b s v.inv; sink = refl };
  begin_configure_keeps = λ k now cfg b v. record {
    inv = begin_configure-Inv now cfg b v.inv;
    sink = (begin_configure-SinkIs k now cfg b (Reports-SinkIs k b v)).sink;
  };
  start_keeps = λ k b v. record { inv = start-Inv b v.inv; sink = v.sink };
  stop_keeps = λ k b v. record { inv = stop-Inv b v.inv; sink = stop_sink b ∙ v.sink };
  submit_tx_keeps = λ k rf b v. record {
    inv = submit_tx-Inv rf b v.inv;
    sink = (submit_tx-SinkIs k rf b (Reports-SinkIs k b v)).sink;
  };
  abandon_pending_tx_keeps = λ k now b v. record {
    inv = abandon_pending_tx-Inv now b v.inv;
    sink = (abandon_pending_tx-SinkIs k now b (Reports-SinkIs k b v)).sink;
  };
  poll_keeps = λ k now b v. record {
    inv = poll-Inv now b v.inv;
    sink = (poll-SinkIs k now b v.inv (Reports-SinkIs k b v)).sink;
  };
}
