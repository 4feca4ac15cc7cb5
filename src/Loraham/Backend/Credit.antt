-- ===== src/Loraham/Backend/Credit.antt =====
-- How often the backend reports a result: a measure that no operation but submit_tx raises.
use meshcom_loraham_bridge.Prelude.{ℕ, ◌+◌, ◌≤◌, List, [], ◌∷◌, ◌++◌, length, ◌≡◌, arith}
use meshcom_loraham_bridge.Radio.{
  SinkEvent, RxEvent, TxOutcome, rx, tx_complete, backend_failure, configure_complete,
  ConfigureResult,
}
use meshcom_loraham_bridge.Loraham.Framing.{rx_frame_max}
use meshcom_loraham_bridge.Loraham.Backend.{
  Backend, State, tx_writing, tx_pending, emit, reset_link_unconfigured, enter_fault,
  handle_disconnect,
}

-- The results of transmissions among the events.
abbrev pub completes : List SinkEvent → ℕ
completes [] = 0
completes (tx_complete o ∷ es) = 1 + completes es
completes (rx r ∷ es) = completes es
completes (backend_failure ∷ es) = completes es
completes (configure_complete t r ∷ es) = completes es

pub completes-append : (es fs : List SinkEvent) → completes (es ++ fs) ≡ completes es + completes fs
completes-append [] fs = omega arith
completes-append (tx_complete o ∷ es) fs = omega (arith, completes-append es fs)
completes-append (rx r ∷ es) fs = completes-append es fs
completes-append (backend_failure ∷ es) fs = completes-append es fs
completes-append (configure_complete t r ∷ es) fs = completes-append es fs

-- A transmission that the session still waits for.
abbrev pub awaited : State → ℕ
awaited tx_writing = 1
awaited tx_pending = 1
awaited _ = 0

abbrev pub credit : Backend → ℕ
credit b = completes b.events + awaited b.state

-- The backend at `n` credits, with a parser that is within its bounds.
pub record AtMost (n : ℕ) (b : Backend) : Type 0 where
  pub spent : credit b ≤ n
  pub fits : length b.parser.buf ≤ rx_frame_max

module _ (n : ℕ) (b : Backend) where
  pub reset-AtMost : completes b.events ≤ n → AtMost n (reset_link_unconfigured b)
  unfolding reset_link_unconfigured
  reset-AtMost h = ground arith

  pub enter_fault-AtMost : completes b.events ≤ n → AtMost n (enter_fault b)
  unfolding enter_fault
  enter_fault-AtMost h = ground arith

  pub emit_failure-AtMost : AtMost n b → AtMost n (emit backend_failure b)
  unfolding emit
  emit_failure-AtMost h = ground (arith, completes-append b.events (backend_failure ∷ []))

  pub emit_rx-AtMost : (r : RxEvent) → AtMost n b → AtMost n (emit (rx r) b)
  unfolding emit
  emit_rx-AtMost r h = ground (arith, completes-append b.events (rx r ∷ []))

  -- A result uses up the credit of the transmission that it ends.
  pub emit_result-AtMost :
      (o : TxOutcome)
      → 1 + credit b ≤ n
      → length b.parser.buf ≤ rx_frame_max
      → AtMost n (emit (tx_complete o) b)
  unfolding emit
  emit_result-AtMost o h k = ground (arith, completes-append b.events (tx_complete o ∷ []))

  -- A configuration's end is no result, and no transmission is under way then.
  pub emit_config-AtMost :
      (t : ℕ) (r : ConfigureResult) → AtMost n b → AtMost n (emit (configure_complete t r) b)
  unfolding emit
  emit_config-AtMost t r h = ground (arith, completes-append b.events (configure_complete t r ∷ []))

pub handle_disconnect-AtMost : (n : ℕ) (b : Backend) → AtMost n b → AtMost n (handle_disconnect b)
unfolding handle_disconnect
handle_disconnect-AtMost n b h = ground (
  arith,
  enter_fault-AtMost n b,
  reset-AtMost n b,
  emit_failure-AtMost n (reset_link_unconfigured b),
  emit_failure-AtMost n (enter_fault b),
)
