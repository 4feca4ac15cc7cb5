-- ===== src/Xr/Session/Flight.antt =====
-- A transmission from its request to its result: xr_session.cpp's handle_tx_request, on_tx_complete
-- and what may happen to the session between them.
pub mod Meanwhile
mod Tests
use meshcom_loraham_bridge.Prelude.{
  ℕ, ◌+◌, ◌≤◌, ◌<◌, true, false, List, [], ◌∷◌, ◌++◌, Bytes, ◌≡◌, ◌≢◌, ◌⊎◌, inl, inr, refl, arith,
  length, Bool-cases, if_rule,
}
use meshcom_loraham_bridge.Radio.{
  RadioBackend, RxEvent, ConfigureResult, TxOutcome, rx, backend_failure, configure_complete,
}
use meshcom_loraham_bridge.Xr.Codec.{External, XrFrame, msg_tx_request, msg_tx_result}
use meshcom_loraham_bridge.Xr.Outbox.{IsBuffer, size, unsent, append, append_lem}
use meshcom_loraham_bridge.Xr.Session.{
  Session, ready, closed, is_closed, is_client_message, CloseReason, close, emit, malformed_frame,
  bad_state, remote_error, internal_error, output_overflow, tx_outcome_to_wire, out_consume,
}
use meshcom_loraham_bridge.Xr.Session.Gate.{close_phase}
use meshcom_loraham_bridge.Xr.Session.Invariant.{SessionInv}
use meshcom_loraham_bridge.Xr.Session.Keeps.{handle_frame-Inv}
use meshcom_loraham_bridge.Xr.Session.Steps.{out_consume-Inv}
use meshcom_loraham_bridge.Xr.Session.Handle.{
  handle_frame, handle_phase, handle_ready_frame, handle_pong, handle_tx_request,
}
use meshcom_loraham_bridge.Xr.Session.Events.{
  on_event, on_rx, on_configure_complete, on_backend_failure, on_tx_complete, is_ready,
  is_configuring,
}
use meshcom_loraham_bridge.Xr.Session.Events.Keeps.{on_event-Inv, is_configuring_lem}
use meshcom_loraham_bridge.Xr.Session.Time.{tick}
use meshcom_loraham_bridge.Xr.Session.Time.Keeps.{tick-Inv}
use meshcom_loraham_bridge.Xr.Session.Flight.Meanwhile.{
  Waits, close-Waits, on_rx-Waits, on_configure_complete-Waits, handle_frame-Waits,
}
use meshcom_loraham_bridge.Xr.Session.Time.Meanwhile.{tick-Waits}

-- What the session may meet while its packet is on the way: all but the result.
pub data Happening : Type 0 where
  frame_came : ℕ → XrFrame → Happening
  packet_heard : RxEvent → Happening
  config_reported : ℕ → ℕ → ConfigureResult → Happening
  backend_failed : Happening
  time_passed : ℕ → Happening
  output_taken : ℕ → Happening

module _ {ext : External} (rb : RadioBackend) where
  unfoldable pub meet : Happening → Session ext × rb.Backend → Session ext × rb.Backend
  meet (frame_came now f) r = handle_frame rb now f r
  meet (packet_heard e) (s, b) = (on_event 0 (rx e) s, b)
  meet (config_reported now token res) (s, b) = (on_event now (configure_complete token res) s, b)
  meet backend_failed (s, b) = (on_event 0 backend_failure s, b)
  meet (time_passed now) r = tick rb now r
  meet (output_taken n) (s, b) = (out_consume n s, b)

  unfoldable pub meet_all : List Happening → Session ext × rb.Backend → Session ext × rb.Backend
  meet_all [] r = r
  meet_all (m ∷ ms) r = meet_all ms (meet m r)

-- The result is in the outbox behind what was there, as the last frame sent; or it has no encoding or
-- no room, and the session is closed.
abbrev pub Resulted : {ext : External} → ℕ → TxOutcome → Session ext → Session ext → Type 0
Resulted {ext} seq o s s' =
    let payload : Bytes = tx_outcome_to_wire o ∷ [] in
    let bytes = ext.encode msg_tx_result seq payload in
    ((length bytes ≢ 0)
      × (size s.outbox + length bytes ≤ s.outbox.cap)
      × (s'.sent ≡ s.sent ++ (record { type = msg_tx_result; seq = seq; payload = payload }) ∷ [])
      × (unsent s'.outbox ≡ unsent s.outbox ++ bytes)
      × (s'.phase ≡ ready))
    ⊎ (((length bytes ≡ 0) ⊎ (s.outbox.cap < size s.outbox + length bytes))
        × (s'.sent ≡ s.sent)
        × (s'.phase ≡ closed))

module _ {ext : External} where
  second_result :
      (o o' : TxOutcome) (s : Session ext)
      → let s' = on_tx_complete o s in (s'.tx_in_flight ≡ false) × (on_tx_complete o' s' ≡ s')
  unfolding on_tx_complete emit close is_closed
  second_result o o' s = ground arith

  over_lem : (o : TxOutcome) (s : Session ext) → s.tx_in_flight ≡ false → on_tx_complete o s ≡ s
  unfolding on_tx_complete
  over_lem o s h = ground arith

  on_tx_complete-Resulted :
      (seq : ℕ) (o : TxOutcome) (s : Session ext)
      → IsBuffer s.outbox
      → s.phase ≡ ready
      → s.tx_in_flight ≡ true
      → s.tx_seq ≡ seq
      → Resulted seq o s (on_tx_complete o s)
  unfolding on_tx_complete emit close is_closed
  on_tx_complete-Resulted seq o s v p h e =
      ground
        (arith, append_lem (ext.encode msg_tx_result seq (tx_outcome_to_wire o ∷ [])) s.outbox v)

module _ {ext : External} (rb : RadioBackend) where
  meet-Waits :
      (seq : ℕ) (m : Happening) (s : Session ext) (b : rb.Backend)
      → SessionInv s × Waits seq s
      → SessionInv (meet rb m (s, b)).0 × Waits seq (meet rb m (s, b)).0
  unfolding meet on_event on_backend_failure out_consume
  meet-Waits seq (frame_came now f) s b (v, w) =
      (handle_frame-Inv rb now f s b v, handle_frame-Waits rb seq now f s b w)
  meet-Waits seq (packet_heard e) s b (v, w) = (on_event-Inv 0 (rx e) s v, on_rx-Waits seq e s w)
  meet-Waits seq (config_reported now token res) s b (v, w) = (
    on_event-Inv now (configure_complete token res) s v,
    on_configure_complete-Waits seq now token res s w,
  )
  meet-Waits seq backend_failed s b (v, w) =
      (on_event-Inv 0 backend_failure s v, close-Waits seq CloseReason.backend_failure s)
  meet-Waits seq (time_passed now) s b (v, w) = (tick-Inv rb now s b v, tick-Waits rb seq now s b w)
  meet-Waits seq (output_taken n) s b (v, w) = (out_consume-Inv n s v, w)

  meet_all-Waits :
      (seq : ℕ) (ms : List Happening) (s : Session ext) (b : rb.Backend)
      → SessionInv s × Waits seq s
      → SessionInv (meet_all rb ms (s, b)).0 × Waits seq (meet_all rb ms (s, b)).0
  unfolding meet_all
  meet_all-Waits seq [] s b w = w
  meet_all-Waits seq (m ∷ ms) s b w =
      meet_all-Waits seq ms (meet rb m (s, b)).0 (meet rb m (s, b)).1 (meet-Waits seq m s b w)

  accepted_lem :
      (now : ℕ) (f : XrFrame) (s : Session ext) (b : rb.Backend)
      → s.phase ≡ ready
      → s.tx_in_flight ≡ false
      → f.type ≡ msg_tx_request
      → ext.validate f ≡ 0
      → (rb.submit_tx f.payload b).0 ≡ true
      → let s' = (handle_frame rb now f (s, b)).0 in
        (s'.phase ≡ ready) × (s'.tx_in_flight ≡ true) × (s'.tx_seq ≡ f.seq) × (s'.sent ≡ s.sent)
  unfolding handle_frame handle_phase handle_ready_frame handle_tx_request is_client_message
  accepted_lem now f s b p h t val taken = ground arith

  -- The end of a transmission under `seq`, at its result.
  result_lem :
      (seq : ℕ) (o o' : TxOutcome) (s : Session ext)
      → SessionInv s × Waits seq s
      → let s' = on_tx_complete o s in
        (s'.tx_in_flight ≡ false)
        × (on_tx_complete o' s' ≡ s')
        × ((s.phase ≡ closed) × (s' ≡ s) ⊎ (s.phase ≡ ready) × Resulted seq o s s')
  result_lem seq o o' s (v, w) =
      let (down, once) = second_result o o' s in
      (
        down,
        once,
        elim w [
          | inl e ↦ inl (e, over_lem o s (ground (arith, v.flight)))
          | inr (p, h, e) ↦ inr (p, on_tx_complete-Resulted seq o s v.buffer p h e)
        ],
      )

  -- Take a session in ready that keeps its invariant and has nothing in flight, a valid TX_REQUEST, and
  -- a backend that takes the packet. Then the session waits, in ready and with nothing sent for it.
  -- Whatever frames, packets, reports, ticks and writes come before the result: the result either
  -- finds the session closed, and changes nothing, or in ready, and one TX_RESULT with this outcome
  -- and the request's sequence number is sent behind all that was in the outbox, unless it has no
  -- encoding or no room, which closes the session. Behind it nothing is in flight, and another
  -- result, of any outcome, changes nothing.
  pub tx_request-result :
      (now : ℕ) (f : XrFrame) (ms : List Happening) (o o' : TxOutcome) (s : Session ext)
      (b : rb.Backend)
      → SessionInv s
      → s.phase ≡ ready
      → s.tx_in_flight ≡ false
      → f.type ≡ msg_tx_request
      → ext.validate f ≡ 0
      → (rb.submit_tx f.payload b).0 ≡ true
      → let asked = handle_frame rb now f (s, b) in
        let waited = (meet_all rb ms asked).0 in
        let done = on_tx_complete o waited in
        ((asked.0.phase ≡ ready) × (asked.0.tx_in_flight ≡ true) × (asked.0.sent ≡ s.sent))
        × (done.tx_in_flight ≡ false)
        × (on_tx_complete o' done ≡ done)
        × ((waited.phase ≡ closed) × (done ≡ waited)
            ⊎ (waited.phase ≡ ready) × Resulted f.seq o waited done)
  tx_request-result now f ms o o' s b v p h t val taken =
      let (s', b') = handle_frame rb now f (s, b) in
      let (p', h', e, same) = accepted_lem now f s b p h t val taken in
      let (down, once, sent) =
        result_lem f.seq o o' (meet_all rb ms (s', b')).0
          (meet_all-Waits f.seq ms s' b' (handle_frame-Inv rb now f s b v, inr (p', h', e))) in
      ((p', h', same), down, once, sent)
