-- ===== src/Loraham/Backend/Receive/Sink.antt =====
-- What arrives on the DATA socket does not change to whom the backend reports.
use meshcom_loraham_bridge.Prelude.{
  ◌≤◌, Bool, List, [], ◌∷◌, length, ◌≡◌, refl, arith, if_rule, ◌==◌,
}
use meshcom_loraham_bridge.Radio.{SinkEvent}
use meshcom_loraham_bridge.Loraham.Framing.{Frame, Parser, rx_frame_max}
use meshcom_loraham_bridge.Loraham.Framing.PumpRule.{Keeps, Ends, pump_rule}
use meshcom_loraham_bridge.Loraham.Framing.Pump.{Pumped, drained, ended, broken, stuck}
use meshcom_loraham_bridge.Loraham.Link.{Recv, recv_failed, received, chunk_of}
use meshcom_loraham_bridge.Loraham.Backend.{
  Backend, emit, log_tx_outcome, reset_link_unconfigured, resolve_drain, enter_fault,
  handle_disconnect,
}
use meshcom_loraham_bridge.Loraham.Backend.Receive.{
  dispatch, parser_of, set_parser, data_loop, pump_chunk, after_pump, pump_fuel, set_data,
}
use meshcom_loraham_bridge.Loraham.Backend.Receive.Keeps.{dispatch-parser}

-- The sink is set, or not, and the parser is within its bounds.
pub record SinkIs (k : Bool) (b : Backend) : Type 0 where
  pub sink : b.sink ≡ k
  pub fits : length b.parser.buf ≤ rx_frame_max

module _ (k : Bool) where
  pub emit-SinkIs : (e : SinkEvent) (b : Backend) → SinkIs k b → SinkIs k (emit e b)
  unfolding emit
  emit-SinkIs e b v = ground arith

  pub reset-SinkIs : (b : Backend) → SinkIs k b → SinkIs k (reset_link_unconfigured b)
  unfolding reset_link_unconfigured
  reset-SinkIs b v = ground arith

  pub enter_fault-SinkIs : (b : Backend) → SinkIs k b → SinkIs k (enter_fault b)
  unfolding enter_fault log_tx_outcome
  enter_fault-SinkIs b v = ground arith

  pub handle_disconnect-SinkIs : (b : Backend) → SinkIs k b → SinkIs k (handle_disconnect b)
  unfolding handle_disconnect enter_fault emit reset_link_unconfigured log_tx_outcome
  handle_disconnect-SinkIs b v = ground arith

  set_data-SinkIs : (reads : List Recv) (b : Backend) → SinkIs k b → SinkIs k (set_data reads b)
  unfolding set_data
  set_data-SinkIs reads b v = ground arith

  dispatch-SinkIs : (f : Frame) (b : Backend) → SinkIs k b → SinkIs k (dispatch f b)
  unfolding dispatch emit resolve_drain log_tx_outcome reset_link_unconfigured
  dispatch-SinkIs f b v = ground arith

  set_parser-SinkIs :
      (p : Parser) (b : Backend)
      → SinkIs k b
      → length p.buf ≤ rx_frame_max
      → SinkIs k (set_parser p b)
  set_parser-SinkIs p b v h = ground arith

  dispatch-Keeps_sink :
      (stops : Backend → Bool) → Keeps (SinkIs k) (SinkIs k) parser_of set_parser dispatch stops
  dispatch-Keeps_sink stops = record {
    parser_set = λ p b. refl;
    bounded = λ b v. v.fits;
    on_parser = λ p b v h. set_parser-SinkIs p b v h;
    goes_on = λ f b v e. dispatch-SinkIs f b v;
    at_stop = λ f b v e. dispatch-SinkIs f b v;
    no_longer = λ f b. dispatch-parser f b;
  }

  after_pump-SinkIs :
      (r : Pumped Backend) (short : Bool) (b : Backend) (more : Backend → Backend)
      → Ends (SinkIs k) (SinkIs k) r
      → ((next : Backend) → SinkIs k next → SinkIs k (more next))
      → SinkIs k (after_pump r short b more)
  unfolding after_pump
  after_pump-SinkIs (drained next) short b more v later =
      if_rule (SinkIs k) short _ _ v (later next v)
  after_pump-SinkIs (ended next) short b more v later = v
  after_pump-SinkIs (broken next) short b more v later = handle_disconnect-SinkIs next v
  after_pump-SinkIs stuck short b more v later = absurd v

  pub data_loop-SinkIs :
      (stops : Backend → Bool) (reads : List Recv) (b : Backend)
      → SinkIs k b
      → SinkIs k (data_loop stops reads b)
  unfolding data_loop pump_chunk
  data_loop-SinkIs stops [] b v = set_data-SinkIs [] b v
  data_loop-SinkIs stops (recv_failed ∷ reads) b v =
      handle_disconnect-SinkIs _ (set_data-SinkIs reads b v)
  data_loop-SinkIs stops (received bytes ∷ reads) b v =
      let chunk = chunk_of bytes in
      let b' = set_data reads b in
      let v' = set_data-SinkIs reads b v in
      if_rule (SinkIs k) (length chunk == 0) _ _ v' (
        after_pump-SinkIs (pump_chunk stops chunk b') _ b _
          (pump_rule (SinkIs k) (SinkIs k) parser_of set_parser dispatch stops
            (dispatch-Keeps_sink stops) (pump_fuel chunk b') chunk b' v' (omega arith))
          (λ next w. data_loop-SinkIs stops reads next w))
