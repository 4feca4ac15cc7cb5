-- ===== src/Loraham/Backend/Poll/Credit.antt =====
-- How many results a poll reports.
use meshcom_loraham_bridge.Prelude.{
  ℕ, ◌+◌, ◌≤◌, Bool, false, [], ◌≡◌, inl, inr, arith, Bool-cases, leb, if◌then◌else◌,
}
use meshcom_loraham_bridge.Loraham.Link.{
  TxFlush, complete, partial, flush_failed, conf_reads, data_reads,
}
use meshcom_loraham_bridge.Loraham.Backend.{Backend, tx_writing, tx_pending}
use meshcom_loraham_bridge.Loraham.Backend.Conf.{
  ConfResult, conf_idle, conf_status, conf_failed, pump_conf, drain_conf_input,
}
use meshcom_loraham_bridge.Loraham.Backend.Conf.Keeps.{conf_loop-ConfRun}
use meshcom_loraham_bridge.Loraham.Backend.Configure.Credit.{
  ConfRun-AtMost, config_fail-AtMost, advance_configure-AtMost, advance_connect-AtMost,
}
use meshcom_loraham_bridge.Loraham.Backend.Transmit.{pump_tx_write}
use meshcom_loraham_bridge.Loraham.Backend.Receive.{stops_operational, stops_drain}
use meshcom_loraham_bridge.Loraham.Backend.Receive.Credit.{data_loop-AtMost}
use meshcom_loraham_bridge.Loraham.Backend.Credit.{
  AtMost, completes, awaited, emit_failure-AtMost, enter_fault-AtMost, reset-AtMost,
  handle_disconnect-AtMost,
}
use meshcom_loraham_bridge.Loraham.Backend.Invariant.{Inv}
use meshcom_loraham_bridge.Loraham.Backend.Poll.{
  read_data, after_resume, resume_write, after_conf, advance_operational, advance_drain, poll_step,
  poll, is_writing,
}
use meshcom_loraham_bridge.Loraham.Backend.Poll.Keeps.{is_writing_lem}

module _ (n : ℕ) where
  read_data-AtMost :
      (stops : Backend → Bool) (b : Backend) → AtMost n b → AtMost n (read_data stops b)
  unfolding read_data
  read_data-AtMost stops b h = data_loop-AtMost n stops (data_reads b.link) b h

  after_resume-AtMost :
      (flush : TxFlush) (b : Backend)
      → AtMost n b
      → b.state ≡ tx_writing
      → AtMost n (after_resume (flush, b))
  unfolding after_resume
  after_resume-AtMost flush_failed b h s =
      emit_failure-AtMost n _ (reset-AtMost n b (omega (arith, h.spent)))
  after_resume-AtMost complete b h s =
      read_data-AtMost stops_operational (record b { state = tx_pending }) (ground arith)
  after_resume-AtMost partial b h s = read_data-AtMost stops_operational b h

  pump_tx_write-AtMost :
      (b : Backend)
      → AtMost n b
      → b.state ≡ tx_writing
      → AtMost n (pump_tx_write b).1 × ((pump_tx_write b).1.state ≡ tx_writing)
  unfolding pump_tx_write
  pump_tx_write-AtMost b h s = ground arith

  resume_write-AtMost :
      (b : Backend) → AtMost n b → b.state ≡ tx_writing → AtMost n (resume_write b)
  unfolding resume_write
  resume_write-AtMost b h s =
      let r = pump_tx_write-AtMost b h s in
      after_resume-AtMost (pump_tx_write b).0 (pump_tx_write b).1 r.0 r.1

  go_on-AtMost :
      (b : Backend)
      → AtMost n b
      → AtMost n (if is_writing b.state then resume_write b else read_data stops_operational b)
  go_on-AtMost b h = elim (Bool-cases (is_writing b.state)) [
    | inl e ↦ rw e (resume_write-AtMost b h (is_writing_lem b.state e))
    | inr e ↦ rw e (read_data-AtMost stops_operational b h)
  ]

  after_conf-AtMost : (r : ConfResult) (b : Backend) → AtMost n b → AtMost n (after_conf (r, b))
  unfolding after_conf
  after_conf-AtMost conf_failed b h = handle_disconnect-AtMost n b h
  after_conf-AtMost conf_idle b h = go_on-AtMost b h
  after_conf-AtMost (conf_status r) b h = go_on-AtMost b h

  advance_operational-AtMost : (b : Backend) → AtMost n b → Inv b → AtMost n (advance_operational b)
  unfolding advance_operational pump_conf
  advance_operational-AtMost b h v =
      after_conf-AtMost (pump_conf false b).0 (pump_conf false b).1
        (ConfRun-AtMost n b _ _ h (conf_loop-ConfRun false (conf_reads b.link) b v.line_bounded))

  drain_conf_input-AtMost : (b : Backend) → AtMost n b → AtMost n (drain_conf_input b)
  unfolding drain_conf_input
  drain_conf_input-AtMost b h = ground arith

  advance_drain-AtMost : (now : ℕ) (b : Backend) → AtMost n b → AtMost n (advance_drain now b)
  unfolding advance_drain
  advance_drain-AtMost now b h = elim (Bool-cases (leb b.drain_deadline_at now)) [
    | inl e ↦ rw e (enter_fault-AtMost n b (omega (arith, h.spent)))
    | inr e ↦ rw e (read_data-AtMost stops_drain _ (drain_conf_input-AtMost b h))
  ]

  poll_step-AtMost : (now : ℕ) (b : Backend) → AtMost n b → Inv b → AtMost n (poll_step now b)
  unfolding poll_step
  poll_step-AtMost now b h v = ground (
    arith,
    config_fail-AtMost n b h,
    advance_connect-AtMost n b h v.line_bounded,
    advance_configure-AtMost n b h v.line_bounded,
    advance_operational-AtMost b h v,
    advance_drain-AtMost now b h,
  )

-- In a state within the invariant, a poll makes at most one tx_complete call, only if a
-- transmission was being written or pending before it, and none if one still is behind it.
pub poll-completes :
    (now : ℕ) (b : Backend)
    → Inv b
    → completes (poll now b).1 + awaited (poll now b).0.state ≤ awaited b.state
unfolding poll
poll-completes now b v =
    let fresh : Backend = record b { events = [] } in
    let h : AtMost (awaited b.state) fresh = ground (arith, v.parser_bounded) in
    (poll_step-AtMost (awaited b.state) now fresh h (ground arith)).spent
