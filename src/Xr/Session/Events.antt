-- ===== src/Xr/Session/Events.antt =====
-- xr_session.cpp: the calls that the backend makes of its sink.
pub mod Keeps
pub mod View
use meshcom_loraham_bridge.Prelude.{
  ℕ, ◌+◌, Bool, true, false, not, ◌||◌, List, [], ◌∷◌, ◌++◌, ◌==◌, if◌then◌else◌, length, Bytes,
}
use meshcom_loraham_bridge.Radio.{
  TxOutcome, RxEvent, ConfigureResult, SinkEvent, rx, tx_complete, backend_failure,
  configure_complete,
}
use meshcom_loraham_bridge.Xr.Codec.{
  External, msg_config_result, msg_rx_packet, msg_tx_result, cfg_ok, cfg_unsupported,
}
use meshcom_loraham_bridge.Xr.Session.{
  Session, Phase, wait_hello, wait_auth, wait_configure, configuring, ready, closed, CloseReason,
  emit, close, enter_ready, pack_config, put16, tx_outcome_to_wire,
}
use meshcom_loraham_bridge.Xr.Session.Handle.{refuse_config, then_emitted}

pub is_ready : Phase → Bool
is_ready ready = true
is_ready _ = false

pub is_configuring : Phase → Bool
is_configuring configuring = true
is_configuring _ = false

module _ {ext : External} where
  -- The configuration is in force exactly as it was asked for.
  confirm_config : ℕ → ConfigureResult → Session ext → Session ext
  confirm_config now res s =
      then_emitted
        (emit msg_config_result 0 (cfg_ok ∷ pack_config res.effective)
          (record s { applied_cfg = res.effective }))
        (λ s'. enter_ready now s')

  unfoldable pub on_configure_complete : ℕ → ℕ → ConfigureResult → Session ext → Session ext
  unfolding confirm_config is_configuring
  on_configure_complete now op_token res s =
      if not (is_configuring s.phase)
      then s
      else if not (op_token == s.config_op_token)
      then s
      else if not res.applied || not (ext.config_equal res.effective s.requested_cfg)
      then refuse_config cfg_unsupported s
      else confirm_config now res s

  unfoldable pub on_rx : RxEvent → Session ext → Session ext
  unfolding is_ready
  on_rx r s =
      let len = length r.payload in
      if not (is_ready s.phase)
      then s
      else if not (ext.rx_payload_acceptable len)
      then s
      else (emit msg_rx_packet 0
          (put16 r.rssi_cdbm ++ (put16 r.snr_cdb ++ (put16 len ++ r.payload))) s).1

  map_and_send_tx_result : TxOutcome → Session ext → Session ext
  map_and_send_tx_result outcome s =
      (emit msg_tx_result s.tx_seq (tx_outcome_to_wire outcome ∷ [])
        (record s { tx_in_flight = false })).1

  unfoldable pub on_tx_complete : TxOutcome → Session ext → Session ext
  unfolding map_and_send_tx_result
  on_tx_complete outcome s = if s.tx_in_flight then map_and_send_tx_result outcome s else s

  unfoldable pub on_backend_failure : Session ext → Session ext
  on_backend_failure s = close CloseReason.backend_failure s

  unfoldable pub on_event : ℕ → SinkEvent → Session ext → Session ext
  on_event now (rx r) s = on_rx r s
  on_event now (tx_complete outcome) s = on_tx_complete outcome s
  on_event now backend_failure s = on_backend_failure s
  on_event now (configure_complete token res) s = on_configure_complete now token res s

  -- The calls of one poll of the backend, in their order.
  unfoldable pub on_events : ℕ → List SinkEvent → Session ext → Session ext
  on_events now [] s = s
  on_events now (e ∷ es) s = on_events now es (on_event now e s)
