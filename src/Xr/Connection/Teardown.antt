-- ===== src/Xr/Connection/Teardown.antt =====
-- The end of a connection to the firmware, with LorahamBackend.
use meshcom_loraham_bridge.Prelude.{ℕ, false, [], ◌≡◌, arith, add64}
use meshcom_loraham_bridge.Xr.Codec.{External}
use meshcom_loraham_bridge.Xr.Connection.{Connection, close_connection}
use meshcom_loraham_bridge.Loraham.Backend.{
  State, Backend, disconnected, tx_pending, draining, faulted, set_sink, stop,
  reset_link_unconfigured,
}
use meshcom_loraham_bridge.Loraham.Backend.Transmit.{abandon_pending_tx}
use meshcom_loraham_bridge.Loraham.Backend.Poll.{loraham_backend}

-- What becomes of a backend, by the state that it was in.
abbrev pub Ended : State → ℕ → Backend → Backend → Type 0
Ended tx_pending now b b' =
    (b'.state ≡ draining)
    × (b'.link ≡ b.link)
    × (b'.tx_out ≡ b.tx_out)
    × (b'.drain_deadline_at ≡ add64 now b.drain_timeout_ms)
Ended draining now b b' =
    (b'.state ≡ draining) × (b'.link ≡ b.link) × (b'.drain_deadline_at ≡ b.drain_deadline_at)
Ended faulted now b b' = (b'.state ≡ faulted) × (b'.link ≡ b.link)
Ended _ now b b' = (b'.state ≡ disconnected) × (b'.link.is_open ≡ false) × (b'.tx_out ≡ [])

module _ {ext : External} (now : ℕ) (c : Connection ext) (b : Backend) where
  -- However a connection ends: a packet that the daemon owns is still awaited, on the same sockets,
  -- for the drain timeout; a backend that drains or is faulted stays so; in all other states the
  -- backend is disconnected. It reports to the session no more.
  pub close_connection_lem :
      let b' = (close_connection loraham_backend now (c, b)).1 in
      (b'.sink ≡ false) × (b'.started ≡ false) × Ended b.state now b b'
  unfolding close_connection abandon_pending_tx set_sink stop reset_link_unconfigured
  close_connection_lem = ground arith
