-- ===== src/Loraham/Backend/Receive/View.antt =====
-- dispatch and the loop over the reads of the DATA socket tell a session what becomes of its backend.
use meshcom_loraham_bridge.Prelude.{
  ℕ, Bool, true, false, List, [], ◌∷◌, ◌++◌, length, ◌≡◌, refl, inr, Option, none, some, ◌==◌, leb,
  arith, Bytes, if_rule,
}
use meshcom_loraham_bridge.Radio.{TxOutcome, RxEvent, rx, tx_complete, radio_error}
use meshcom_loraham_bridge.Loraham.Framing.{
  decode_rx, decode_tx_result, Frame, map_tx_status, framed_header_len, framed_rx_packet,
  framed_tx_result, framed_error,
}
use meshcom_loraham_bridge.Loraham.Framing.PumpRule.{Keeps, Ends, pump_rule}
use meshcom_loraham_bridge.Loraham.Framing.Pump.{Pumped, drained, ended, broken, stuck}
use meshcom_loraham_bridge.Loraham.Link.{Recv, recv_failed, received, chunk_of}
use meshcom_loraham_bridge.Loraham.Backend.{
  Backend, State, ready, tx_pending, rx_line, ok, log_tx_outcome, resolve_drain,
}
use meshcom_loraham_bridge.Loraham.Backend.View.{
  View, InUse, see, Tracks, same-Tracks, emit-Tracks, reset_drained-Tracks,
  handle_disconnect-Tracks,
}
use meshcom_loraham_bridge.Loraham.Backend.Receive.{
  dispatch, dispatch_rx, dispatch_tx_result, dispatch_error, tx_resolved, parser_of, set_parser,
  data_loop, pump_chunk, after_pump, pump_fuel, set_data, receives,
}
use meshcom_loraham_bridge.Loraham.Backend.Receive.Keeps.{dispatch-parser}

module _ (v : View) where
  -- A result ends the packet that is in flight.
  result_view :
      (o : TxOutcome) (w : View) (s : State)
      → InUse w s
      → s ≡ tx_pending
      → InUse (see (tx_complete o) w) ready
  result_view o w s f e = ground arith

  tx_resolved-Tracks :
      (o : TxOutcome) (b : Backend) → Tracks v b → b.state ≡ tx_pending → Tracks v (tx_resolved o b)
  unfolding tx_resolved
  tx_resolved-Tracks o b t e =
      let b' : Backend = record b { state = ready; tx_out = []; tx_out_off = 0 } in
      ground (
        arith,
        t.current (inr e),
        emit-Tracks v (tx_complete o) b' t.view t.heard t.fits (λ s. ground arith) t.seen
            (result_view o t.view b.state t.follows e),
      )

  log_tx_outcome-Tracks : (b : Backend) → Tracks v b → Tracks v (log_tx_outcome ok b)
  unfolding log_tx_outcome
  log_tx_outcome-Tracks b t =
      if_rule (Tracks v) (leb (length b.tx_out) framed_header_len) _ _ t
        (same-Tracks v b _ t refl refl refl t.fits t.current)

  dispatch_rx-Tracks : (r : ℕ × ℕ × Bytes) (b : Backend) → Tracks v b → Tracks v (dispatch_rx r b)
  unfolding dispatch_rx
  dispatch_rx-Tracks (rssi, snr, rf) b t =
      let logged = record b { rf_log = b.rf_log ++ rx_line rssi snr rf ∷ [] } in
      let r : RxEvent = record { rssi_cdbm = rssi; snr_cdb = snr; payload = rf } in
      if_rule (Tracks v) (receives b.state) _ _
        (emit-Tracks v (rx r) logged t.view t.heard t.fits t.current t.seen t.follows)
        (same-Tracks v b logged t refl refl refl t.fits t.current)

  dispatch_tx_result-Tracks :
      (status : ℕ) (b : Backend) → Tracks v b → Tracks v (dispatch_tx_result status b)
  unfolding dispatch_tx_result resolve_drain log_tx_outcome
  dispatch_tx_result-Tracks status b t =
      let o = map_tx_status status in
      let l = log_tx_outcome-Tracks b t in
      ground (
        arith,
        tx_resolved-Tracks o b t,
        tx_resolved-Tracks o (log_tx_outcome ok b) l,
        reset_drained-Tracks v b t,
        reset_drained-Tracks v (log_tx_outcome ok b) l,
      )

  dispatch_error-Tracks : (b : Backend) → Tracks v b → Tracks v (dispatch_error b)
  unfolding dispatch_error resolve_drain
  dispatch_error-Tracks b t =
      ground (arith, tx_resolved-Tracks radio_error b t, reset_drained-Tracks v b t)

  dispatch_rx_frame-Tracks :
      (r : Option (ℕ × ℕ × Bytes)) (b : Backend)
      → Tracks v b
      → Tracks v (elim r [ none ↦ b | some x ↦ dispatch_rx x b ])
  dispatch_rx_frame-Tracks none b t = t
  dispatch_rx_frame-Tracks (some r) b t = dispatch_rx-Tracks r b t

  dispatch_result_frame-Tracks :
      (r : Option (ℕ × ℕ × ℕ)) (b : Backend)
      → Tracks v b
      → Tracks v (elim r [ none ↦ b | some (status, flags, seq) ↦ dispatch_tx_result status b ])
  dispatch_result_frame-Tracks none b t = t
  dispatch_result_frame-Tracks (some (status, flags, seq)) b t =
      dispatch_tx_result-Tracks status b t

  dispatch-Tracks : (f : Frame) (b : Backend) → Tracks v b → Tracks v (dispatch f b)
  unfolding dispatch
  dispatch-Tracks f b t =
      if_rule (Tracks v) (f.type == framed_rx_packet) _ _
        (dispatch_rx_frame-Tracks (decode_rx f) b t)
        (if_rule (Tracks v) (f.type == framed_tx_result) _ _
          (dispatch_result_frame-Tracks (decode_tx_result f) b t)
          (if_rule (Tracks v) (f.type == framed_error) _ b (dispatch_error-Tracks b t) t))

  set_data-Tracks : (reads : List Recv) (b : Backend) → Tracks v b → Tracks v (set_data reads b)
  unfolding set_data
  set_data-Tracks reads b t = same-Tracks v b _ t refl refl refl t.fits t.current

  dispatch-Keeps_view :
      (stops : Backend → Bool) → Keeps (Tracks v) (Tracks v) parser_of set_parser dispatch stops
  dispatch-Keeps_view stops = record {
    parser_set = λ p b. refl;
    bounded = λ b t. t.fits;
    on_parser = λ p b t k. same-Tracks v b (set_parser p b) t refl refl refl k t.current;
    goes_on = λ f b t e. dispatch-Tracks f b t;
    at_stop = λ f b t e. dispatch-Tracks f b t;
    no_longer = λ f b. dispatch-parser f b;
  }

  after_pump-Tracks :
      (r : Pumped Backend) (short : Bool) (b : Backend) (more : Backend → Backend)
      → Ends (Tracks v) (Tracks v) r
      → ((next : Backend) → Tracks v next → Tracks v (more next))
      → Tracks v (after_pump r short b more)
  unfolding after_pump
  after_pump-Tracks (drained next) true b more t later = t
  after_pump-Tracks (drained next) false b more t later = later next t
  after_pump-Tracks (ended next) short b more t later = t
  after_pump-Tracks (broken next) short b more t later = handle_disconnect-Tracks v next t
  after_pump-Tracks stuck short b more t later = absurd t

  pub data_loop-Tracks :
      (stops : Backend → Bool) (reads : List Recv) (b : Backend)
      → Tracks v b
      → Tracks v (data_loop stops reads b)
  unfolding data_loop pump_chunk
  data_loop-Tracks stops [] b t = set_data-Tracks [] b t
  data_loop-Tracks stops (recv_failed ∷ reads) b t =
      handle_disconnect-Tracks v _ (set_data-Tracks reads b t)
  data_loop-Tracks stops (received bytes ∷ reads) b t =
      let chunk = chunk_of bytes in
      let b' = set_data reads b in
      let t' = set_data-Tracks reads b t in
      if_rule (Tracks v) (length chunk == 0) _ _ t' (
        after_pump-Tracks (pump_chunk stops chunk b') _ b _
          (pump_rule (Tracks v) (Tracks v) parser_of set_parser dispatch stops
            (dispatch-Keeps_view stops) (pump_fuel chunk b') chunk b' t' (omega arith))
          (λ next w. data_loop-Tracks stops reads next w))
