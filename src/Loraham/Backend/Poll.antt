-- ===== src/Loraham/Backend/Poll.antt =====
-- loraham_backend.cpp: advance_operational, advance_drain and poll, and the backend as a
-- RadioBackend.
pub mod Keeps
pub mod Credit
pub mod Outcome
pub mod View
pub mod Quiet
pub mod Sink
use meshcom_loraham_bridge.Prelude.{ℕ, Bool, true, false, List, [], leb, if◌then◌else◌, Bytes}
use meshcom_loraham_bridge.Radio.{RadioBackend, SinkEvent, backend_failure}
use meshcom_loraham_bridge.Loraham.Link.{TxFlush, complete, partial, flush_failed, data_reads}
use meshcom_loraham_bridge.Loraham.Link
use meshcom_loraham_bridge.Loraham.Backend.{
  Backend, State, disconnected, connecting, configuring, ready, tx_writing, tx_pending, draining,
  faulted, emit, reset_link_unconfigured, enter_fault, handle_disconnect, set_sink, start, stop,
  is_ready, next_deadline_ms,
}
use meshcom_loraham_bridge.Loraham.Backend.Conf.{
  ConfResult, pump_conf, conf_failed, conf_idle, conf_status, drain_conf_input,
}
use meshcom_loraham_bridge.Loraham.Backend.Configure.{
  begin_configure, advance_connect, advance_configure, config_fail,
}
use meshcom_loraham_bridge.Loraham.Backend.Transmit.{pump_tx_write, submit_tx, abandon_pending_tx}
use meshcom_loraham_bridge.Loraham.Backend.Receive.{data_loop, stops_operational, stops_drain}

-- The DATA part of advance_operational and of advance_drain.
read_data : (Backend → Bool) → Backend → Backend
read_data stops b = data_loop stops (data_reads b.link) b

-- Resuming the write of a frame, and what follows it.
after_resume : TxFlush × Backend → Backend
unfolding read_data
after_resume (flush_failed, b) = emit backend_failure (reset_link_unconfigured b)
after_resume (complete, b) = read_data stops_operational (record b { state = tx_pending })
after_resume (partial, b) = read_data stops_operational b

resume_write : Backend → Backend
unfolding after_resume
resume_write b = after_resume (pump_tx_write b)

pub is_writing : State → Bool
is_writing tx_writing = true
is_writing _ = false

after_conf : ConfResult × Backend → Backend
unfolding resume_write read_data is_writing
after_conf (conf_failed, b) = handle_disconnect b
after_conf (conf_idle, b) =
    if is_writing b.state then resume_write b else read_data stops_operational b
after_conf (conf_status r, b) =
    if is_writing b.state then resume_write b else read_data stops_operational b

unfoldable pub advance_operational : Backend → Backend
unfolding after_conf
advance_operational b = after_conf (pump_conf false b)

unfoldable pub advance_drain : ℕ → Backend → Backend
unfolding read_data
advance_drain now b =
    if leb b.drain_deadline_at now
    then enter_fault b
    else read_data stops_drain (drain_conf_input b)

unfoldable pub poll_step : ℕ → Backend → Backend
poll_step now b = elim b.state [
  | disconnected ↦ b
  | faulted ↦ b
  | connecting ↦ if leb b.config_deadline_at now then config_fail b else advance_connect b
  | configuring ↦ if leb b.config_deadline_at now then config_fail b else advance_configure b
  | ready ↦ advance_operational b
  | tx_writing ↦ advance_operational b
  | tx_pending ↦ advance_operational b
  | draining ↦ advance_drain now b
]

-- The events of one poll are handed over as they come.
unfoldable pub poll : ℕ → Backend → Backend × List SinkEvent
poll now b =
    let after = poll_step now (record b { events = [] }) in
    (record after { events = [] }, after.events)

abbrev pub loraham_backend : RadioBackend
loraham_backend = record {
  Backend = Backend;
  set_sink = set_sink;
  begin_configure = begin_configure;
  start = start;
  stop = stop;
  ready = is_ready;
  next_deadline_ms = next_deadline_ms;
  submit_tx = submit_tx;
  abandon_pending_tx = abandon_pending_tx;
  poll = poll;
}
