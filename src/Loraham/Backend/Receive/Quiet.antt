-- ===== src/Loraham/Backend/Receive/Quiet.antt =====
-- What arrives while the backend drains: it may settle the transmission, and nothing is reported.
use meshcom_loraham_bridge.Prelude.{
  ◌≤◌, Bool, true, false, List, [], ◌∷◌, length, ◌≡◌, ◌⊎◌, refl, inl, inr, Bool-cases, ◌==◌, arith,
}
use meshcom_loraham_bridge.Loraham.Framing.{Frame, Parser, rx_frame_max}
use meshcom_loraham_bridge.Loraham.Framing.PumpRule.{Keeps, Ends, pump_rule}
use meshcom_loraham_bridge.Loraham.Framing.Pump.{Pumped, drained, ended, broken, stuck}
use meshcom_loraham_bridge.Loraham.Link.{Recv, recv_failed, received, chunk_of}
use meshcom_loraham_bridge.Loraham.Backend.{
  Backend, disconnected, draining, faulted, emit, log_tx_outcome, reset_link_unconfigured,
  resolve_drain, enter_fault, handle_disconnect,
}
use meshcom_loraham_bridge.Loraham.Backend.Receive.{
  dispatch, parser_of, set_parser, data_loop, pump_chunk, pump_fuel, stops_drain, set_data,
  after_pump,
}
use meshcom_loraham_bridge.Loraham.Backend.Receive.Keeps.{dispatch-parser}

-- Still draining, and the sink has not been called.
pub record Draining (b : Backend) : Type 0 where
  pub drains : b.state ≡ draining
  pub silent : b.events ≡ []
  pub fits : length b.parser.buf ≤ rx_frame_max

-- How draining may go on.
pub record Settled (b : Backend) : Type 0 where
  pub where_to : (b.state ≡ draining) ⊎ ((b.state ≡ disconnected) ⊎ (b.state ≡ faulted))
  pub silent : b.events ≡ []

pub enter_fault-Settled : (b : Backend) → b.events ≡ [] → Settled (enter_fault b)
unfolding enter_fault log_tx_outcome
enter_fault-Settled b e = ground arith

handle_disconnect-Settled : (b : Backend) → Draining b → Settled (handle_disconnect b)
unfolding handle_disconnect
handle_disconnect-Settled b h = ground (arith, enter_fault-Settled b)

dispatch-goes_on :
    (f : Frame) (b : Backend)
    → Draining b
    → stops_drain (dispatch f b) ≡ false
    → Draining (dispatch f b)
unfolding dispatch stops_drain emit resolve_drain log_tx_outcome reset_link_unconfigured
dispatch-goes_on f b h e = ground arith

dispatch-at_stop :
    (f : Frame) (b : Backend)
    → Draining b
    → stops_drain (dispatch f b) ≡ true
    → Settled (dispatch f b)
unfolding dispatch stops_drain emit resolve_drain log_tx_outcome reset_link_unconfigured
dispatch-at_stop f b h e = ground arith

set_parser-Draining :
    (p : Parser) (b : Backend)
    → Draining b
    → length p.buf ≤ rx_frame_max
    → Draining (set_parser p b)
set_parser-Draining p b h k = ground arith

set_data-Draining : (reads : List Recv) (b : Backend) → Draining b → Draining (set_data reads b)
unfolding set_data
set_data-Draining reads b h = ground arith

dispatch-Keeps_drain : Keeps Draining Settled parser_of set_parser dispatch stops_drain
dispatch-Keeps_drain = record {
  parser_set = λ p b. refl;
  bounded = λ b h. h.fits;
  on_parser = λ p b h k. set_parser-Draining p b h k;
  goes_on = λ f b h e. dispatch-goes_on f b h e;
  at_stop = λ f b h e. dispatch-at_stop f b h e;
  no_longer = λ f b. dispatch-parser f b;
}

Draining-Settled : (b : Backend) → Draining b → Settled b
Draining-Settled b h = record { where_to = inl h.drains; silent = h.silent }

after_pump-Settled :
    (r : Pumped Backend) (short : Bool) (b : Backend) (more : Backend → Backend)
    → Ends Draining Settled r
    → ((next : Backend) → Draining next → Settled (more next))
    → Settled (after_pump r short b more)
unfolding after_pump
after_pump-Settled (drained next) true b more h later = Draining-Settled next h
after_pump-Settled (drained next) false b more h later = later next h
after_pump-Settled (ended next) short b more h later = h
after_pump-Settled (broken next) short b more h later = handle_disconnect-Settled next h
after_pump-Settled stuck short b more h later = absurd h

pub data_loop-Settled :
    (reads : List Recv) (b : Backend) → Draining b → Settled (data_loop stops_drain reads b)
unfolding data_loop pump_chunk
data_loop-Settled [] b h = Draining-Settled _ (set_data-Draining [] b h)
data_loop-Settled (recv_failed ∷ reads) b h =
    handle_disconnect-Settled _ (set_data-Draining reads b h)
data_loop-Settled (received bytes ∷ reads) b h =
    let chunk = chunk_of bytes in
    let b' = set_data reads b in
    let h' = set_data-Draining reads b h in
    elim (Bool-cases (length chunk == 0)) [
      | inl e ↦ rw e (Draining-Settled b' h')
      | inr e ↦ rw e (
          after_pump-Settled (pump_chunk stops_drain chunk b') _ b _
            (pump_rule Draining Settled parser_of set_parser dispatch stops_drain
              dispatch-Keeps_drain (pump_fuel chunk b') chunk b' h' (omega arith))
            (λ next w. data_loop-Settled reads next w))
    ]
