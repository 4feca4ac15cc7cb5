-- ===== src/Xr/Session/Flight/Meanwhile.antt =====
-- xr_session.cpp: the session while a packet of its client is on the way.
use meshcom_loraham_bridge.Prelude.{◌++◌, length, ℕ, true, Bytes, ◌≡◌, ◌⊎◌, inl, arith}
use meshcom_loraham_bridge.Radio.{RadioBackend, RxEvent, ConfigureResult}
use meshcom_loraham_bridge.Xr.Codec.{msg_rx_packet, External, XrFrame}
use meshcom_loraham_bridge.Xr.Session.{
  put16, Session, ready, closed, CloseReason, close, emit, malformed_frame, bad_state, remote_error,
  internal_error, output_overflow,
}
use meshcom_loraham_bridge.Xr.Session.Gate.{close_phase}
use meshcom_loraham_bridge.Xr.Session.Handle.{
  handle_frame, handle_phase, handle_ready_frame, handle_pong, handle_tx_request,
}
use meshcom_loraham_bridge.Xr.Session.Events.{on_rx, on_configure_complete}
use meshcom_loraham_bridge.Xr.Session.Events.Keeps.{is_configuring_lem}

-- The session is over, or its transmission is on the way under this sequence number.
abbrev pub Waits : {ext : External} → ℕ → Session ext → Type 0
Waits seq s = (s.phase ≡ closed) ⊎ (s.phase ≡ ready) × (s.tx_in_flight ≡ true) × (s.tx_seq ≡ seq)

module _ {ext : External} where
  pub close-Waits : (seq : ℕ) (r : CloseReason) (s : Session ext) → Waits seq (close r s)
  close-Waits seq r s = inl (close_phase r s)

  emit-Waits :
      (seq type n : ℕ) (payload : Bytes) (s : Session ext)
      → Waits seq s
      → Waits seq (emit type n payload s).1
  unfolding emit
  emit-Waits seq type n payload s w =
      ground (arith, close_phase internal_error s, close_phase output_overflow s)

  pub on_rx-Waits : (seq : ℕ) (e : RxEvent) (s : Session ext) → Waits seq s → Waits seq (on_rx e s)
  unfolding on_rx
  on_rx-Waits seq e s w =
      let n = length e.payload in
      let payload = put16 e.rssi_cdbm ++ (put16 e.snr_cdb ++ (put16 n ++ e.payload)) in
      ground (arith, w, emit-Waits seq msg_rx_packet 0 payload s w)

  -- No configuration is awaited in either case.
  pub on_configure_complete-Waits :
      (seq now token : ℕ) (res : ConfigureResult) (s : Session ext)
      → Waits seq s
      → Waits seq (on_configure_complete now token res s)
  unfolding on_configure_complete
  on_configure_complete-Waits seq now token res s w = ground (arith, w, is_configuring_lem s.phase)

module _ {ext : External} (rb : RadioBackend) where
  pub handle_frame-Waits :
      (seq now : ℕ) (f : XrFrame) (s : Session ext) (b : rb.Backend)
      → Waits seq s
      → Waits seq (handle_frame rb now f (s, b)).0
  unfolding handle_frame handle_phase handle_ready_frame handle_tx_request handle_pong
  handle_frame-Waits seq now f s b w =
      ground (
        arith,
        w,
        close_phase malformed_frame s,
        close_phase bad_state s,
        close_phase remote_error s,
      )
