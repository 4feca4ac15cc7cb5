-- ===== src/Loraham/Backend/Receive/Credit.antt =====
-- dispatch and the loop over the reads of the DATA socket report no result that is not awaited.
use meshcom_loraham_bridge.Prelude.{
  ℕ, ◌≤◌, Bool, true, false, List, [], ◌∷◌, ◌++◌, length, ◌≡◌, refl, inl, inr, Option, none, some,
  Bool-cases, ◌==◌, arith, Bytes,
}
use meshcom_loraham_bridge.Radio.{TxOutcome, RxEvent, radio_error}
use meshcom_loraham_bridge.Loraham.Framing.{
  decode_rx, decode_tx_result, Frame, Parser, rx_frame_max, map_tx_status,
}
use meshcom_loraham_bridge.Loraham.Framing.PumpRule.{Keeps, Ends, pump_rule}
use meshcom_loraham_bridge.Loraham.Framing.Pump.{Pumped, drained, ended, broken, stuck}
use meshcom_loraham_bridge.Loraham.Link.{Recv, recv_failed, received, chunk_of}
use meshcom_loraham_bridge.Loraham.Backend.{
  Backend, ready, rx_line, ok, log_tx_outcome, resolve_drain,
}
use meshcom_loraham_bridge.Loraham.Backend.Credit.{
  awaited, AtMost, emit_rx-AtMost, emit_result-AtMost, reset-AtMost, handle_disconnect-AtMost,
}
use meshcom_loraham_bridge.Loraham.Backend.Receive.{
  dispatch, dispatch_rx, dispatch_tx_result, dispatch_error, tx_resolved, parser_of, set_parser,
  data_loop, pump_chunk, after_pump, pump_fuel, set_data,
}
use meshcom_loraham_bridge.Loraham.Backend.Receive.Keeps.{dispatch-parser}

module _ (n : ℕ) where
  tx_resolved-AtMost :
      (o : TxOutcome) (b : Backend) → AtMost n b → awaited b.state ≡ 1 → AtMost n (tx_resolved o b)
  unfolding tx_resolved
  tx_resolved-AtMost o b h e =
      ground
        (arith, emit_result-AtMost n (record b { state = ready; tx_out = []; tx_out_off = 0 }) o)

  log_tx_outcome-AtMost : (b : Backend) → AtMost n b → AtMost n (log_tx_outcome ok b)
  unfolding log_tx_outcome
  log_tx_outcome-AtMost b h = ground arith

  dispatch_rx-AtMost : (r : ℕ × ℕ × Bytes) (b : Backend) → AtMost n b → AtMost n (dispatch_rx r b)
  unfolding dispatch_rx
  dispatch_rx-AtMost (rssi, snr, rf) b h =
      let logged = record b { rf_log = b.rf_log ++ rx_line rssi snr rf ∷ [] } in
      let r : RxEvent = record { rssi_cdbm = rssi; snr_cdb = snr; payload = rf } in
      ground (arith, emit_rx-AtMost n logged r)

  dispatch_tx_result-AtMost :
      (status : ℕ) (b : Backend) → AtMost n b → AtMost n (dispatch_tx_result status b)
  unfolding dispatch_tx_result resolve_drain log_tx_outcome
  dispatch_tx_result-AtMost status b h =
      let o = map_tx_status status in
      ground (
        arith,
        tx_resolved-AtMost o b h,
        tx_resolved-AtMost o (log_tx_outcome ok b) (log_tx_outcome-AtMost b h),
        reset-AtMost n b,
        reset-AtMost n (log_tx_outcome ok b),
      )

  dispatch_error-AtMost : (b : Backend) → AtMost n b → AtMost n (dispatch_error b)
  unfolding dispatch_error resolve_drain
  dispatch_error-AtMost b h = ground (arith, tx_resolved-AtMost radio_error b h, reset-AtMost n b)

  dispatch_rx_frame-AtMost :
      (r : Option (ℕ × ℕ × Bytes)) (b : Backend)
      → AtMost n b
      → AtMost n (elim r [ none ↦ b | some x ↦ dispatch_rx x b ])
  dispatch_rx_frame-AtMost none b h = h
  dispatch_rx_frame-AtMost (some r) b h = dispatch_rx-AtMost r b h

  dispatch_result_frame-AtMost :
      (r : Option (ℕ × ℕ × ℕ)) (b : Backend)
      → AtMost n b
      → AtMost n (elim r [ none ↦ b | some (status, flags, seq) ↦ dispatch_tx_result status b ])
  dispatch_result_frame-AtMost none b h = h
  dispatch_result_frame-AtMost (some (status, flags, seq)) b h =
      dispatch_tx_result-AtMost status b h

  dispatch-AtMost : (f : Frame) (b : Backend) → AtMost n b → AtMost n (dispatch f b)
  unfolding dispatch
  dispatch-AtMost f b h = ground (
    arith,
    dispatch_rx_frame-AtMost (decode_rx f) b h,
    dispatch_result_frame-AtMost (decode_tx_result f) b h,
    dispatch_error-AtMost b h,
  )

  set_parser-AtMost :
      (p : Parser) (b : Backend)
      → AtMost n b
      → length p.buf ≤ rx_frame_max
      → AtMost n (set_parser p b)
  set_parser-AtMost p b h k = ground arith

  set_data-AtMost : (reads : List Recv) (b : Backend) → AtMost n b → AtMost n (set_data reads b)
  unfolding set_data
  set_data-AtMost reads b h = ground arith

  dispatch-Keeps_credit :
      (stops : Backend → Bool) → Keeps (AtMost n) (AtMost n) parser_of set_parser dispatch stops
  dispatch-Keeps_credit stops = record {
    parser_set = λ p b. refl;
    bounded = λ b h. h.fits;
    on_parser = λ p b h k. set_parser-AtMost p b h k;
    goes_on = λ f b v e. dispatch-AtMost f b v;
    at_stop = λ f b v e. dispatch-AtMost f b v;
    no_longer = λ f b. dispatch-parser f b;
  }

  after_pump-AtMost :
      (r : Pumped Backend) (short : Bool) (b : Backend) (more : Backend → Backend)
      → Ends (AtMost n) (AtMost n) r
      → ((next : Backend) → AtMost n next → AtMost n (more next))
      → AtMost n (after_pump r short b more)
  unfolding after_pump
  after_pump-AtMost (drained next) true b more v later = v
  after_pump-AtMost (drained next) false b more v later = later next v
  after_pump-AtMost (ended next) short b more v later = v
  after_pump-AtMost (broken next) short b more v later = handle_disconnect-AtMost n next v
  after_pump-AtMost stuck short b more v later = absurd v

  pub data_loop-AtMost :
      (stops : Backend → Bool) (reads : List Recv) (b : Backend)
      → AtMost n b
      → AtMost n (data_loop stops reads b)
  unfolding data_loop pump_chunk
  data_loop-AtMost stops [] b h = set_data-AtMost [] b h
  data_loop-AtMost stops (recv_failed ∷ reads) b h =
      handle_disconnect-AtMost n _ (set_data-AtMost reads b h)
  data_loop-AtMost stops (received bytes ∷ reads) b h =
      let chunk = chunk_of bytes in
      let b' = set_data reads b in
      elim (Bool-cases (length chunk == 0)) [
        | inl e ↦ rw e (set_data-AtMost reads b h)
        | inr e ↦ rw e (
            after_pump-AtMost (pump_chunk stops chunk b') _ b _
              (pump_rule (AtMost n) (AtMost n) parser_of set_parser dispatch stops
                (dispatch-Keeps_credit stops) (pump_fuel chunk b') chunk b'
                (set_data-AtMost reads b h) (omega arith))
              (λ next w. data_loop-AtMost stops reads next w))
      ]
