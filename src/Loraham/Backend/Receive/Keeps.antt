-- ===== src/Loraham/Backend/Receive/Keeps.antt =====
-- The loop over the reads of the DATA socket ends and keeps the invariant.
use meshcom_loraham_bridge.Prelude.{
  ◌≤◌, Bool, true, false, List, [], ◌∷◌, length, Bytes, refl, inl, inr, Bool-cases, ◌==◌, arith,
}
use meshcom_loraham_bridge.Loraham.Framing.{Frame, Parser, rx_frame_max}
use meshcom_loraham_bridge.Loraham.Framing.PumpRule.{Keeps, Ends, pump_rule}
use meshcom_loraham_bridge.Loraham.Framing.Pump.{Pumped, drained, ended, broken, stuck}
use meshcom_loraham_bridge.Loraham.Link.{Recv, recv_failed, received, chunk_of}
use meshcom_loraham_bridge.Loraham.Backend.{
  Backend, emit, log_tx_outcome, reset_link_unconfigured, resolve_drain,
}
use meshcom_loraham_bridge.Loraham.Backend.Invariant.{Inv, handle_disconnect-Inv}
use meshcom_loraham_bridge.Loraham.Backend.Receive.{
  dispatch, parser_of, set_parser, data_loop, pump_chunk, after_pump, pump_fuel, set_data,
}

set_data-Inv : (reads : List Recv) (b : Backend) → Inv b → Inv (set_data reads b)
unfolding set_data
set_data-Inv reads b v = ground arith

pub dispatch-Inv : (f : Frame) (b : Backend) → Inv b → Inv (dispatch f b)
unfolding dispatch emit resolve_drain log_tx_outcome reset_link_unconfigured
dispatch-Inv f b v = ground arith

pub dispatch-parser :
    (f : Frame) (b : Backend) → length (dispatch f b).parser.buf ≤ length b.parser.buf
unfolding dispatch emit resolve_drain log_tx_outcome reset_link_unconfigured
dispatch-parser f b = ground arith

set_parser-Inv :
    (p : Parser) (b : Backend) → Inv b → length p.buf ≤ rx_frame_max → Inv (set_parser p b)
set_parser-Inv p b v h = ground arith

dispatch-Keeps : (stops : Backend → Bool) → Keeps Inv Inv parser_of set_parser dispatch stops
dispatch-Keeps stops = record {
  parser_set = λ p b. refl;
  bounded = λ b v. v.parser_bounded;
  on_parser = λ p b v h. set_parser-Inv p b v h;
  goes_on = λ f b v e. dispatch-Inv f b v;
  at_stop = λ f b v e. dispatch-Inv f b v;
  no_longer = λ f b. dispatch-parser f b;
}

-- The bytes of one read are all handled, and no parser state is a dead end.
pub pump_chunk-Ends :
    (stops : Backend → Bool) (chunk : Bytes) (b : Backend)
    → Inv b
    → Ends Inv Inv (pump_chunk stops chunk b)
unfolding pump_chunk
pump_chunk-Ends stops chunk b v =
    pump_rule Inv Inv parser_of set_parser dispatch stops (dispatch-Keeps stops) (pump_fuel chunk b)
      chunk b v (omega arith)

-- What the loop does with the result of one read.
after_pump-Inv :
    (r : Pumped Backend) (short : Bool) (b : Backend) (more : Backend → Backend)
    → Ends Inv Inv r
    → ((next : Backend) → Inv next → Inv (more next))
    → Inv (after_pump r short b more)
unfolding after_pump
after_pump-Inv (drained next) true b more v later = v
after_pump-Inv (drained next) false b more v later = later next v
after_pump-Inv (ended next) short b more v later = v
after_pump-Inv (broken next) short b more v later = handle_disconnect-Inv next
after_pump-Inv stuck short b more v later = absurd v

pub data_loop-Inv :
    (stops : Backend → Bool) (reads : List Recv) (b : Backend)
    → Inv b
    → Inv (data_loop stops reads b)
unfolding data_loop
data_loop-Inv stops [] b v = set_data-Inv [] b v
data_loop-Inv stops (recv_failed ∷ reads) b v = handle_disconnect-Inv _
data_loop-Inv stops (received bytes ∷ reads) b v =
    elim (Bool-cases (length (chunk_of bytes) == 0)) [
      | inl e ↦ rw e (set_data-Inv reads b v)
      | inr e ↦ rw e (
          after_pump-Inv (pump_chunk stops (chunk_of bytes) (set_data reads b)) _ b _
            (pump_chunk-Ends stops (chunk_of bytes) (set_data reads b) (set_data-Inv reads b v))
            (λ next w. data_loop-Inv stops reads next w))
    ]
