-- ===== src/Loraham/Backend/Poll/Quiet.antt =====
-- A poll of a backend that drains.
use meshcom_loraham_bridge.Prelude.{◌<◌, ℕ, ◌≤◌, [], ◌≡◌, ◌⊎◌, inl, inr, Bool-cases, arith, leb}
use meshcom_loraham_bridge.Loraham.Backend.{Backend, disconnected, draining, faulted, enter_fault}
use meshcom_loraham_bridge.Loraham.Backend.Conf.{drain_conf_input}
use meshcom_loraham_bridge.Loraham.Backend.Invariant.{Inv}
use meshcom_loraham_bridge.Loraham.Backend.Receive.Quiet.{
  Draining, Settled, data_loop-Settled, enter_fault-Settled,
}
use meshcom_loraham_bridge.Loraham.Backend.Poll.{read_data, advance_drain, poll_step, poll}

drain_conf_input-Draining : (b : Backend) → Draining b → Draining (drain_conf_input b)
unfolding drain_conf_input
drain_conf_input-Draining b h = ground arith

advance_drain-Settled : (now : ℕ) (b : Backend) → Draining b → Settled (advance_drain now b)
unfolding advance_drain read_data
advance_drain-Settled now b h = elim (Bool-cases (leb b.drain_deadline_at now)) [
  | inl e ↦ rw e (enter_fault-Settled b h.silent)
  | inr e ↦ rw e (data_loop-Settled _ _ (drain_conf_input-Draining b h))
]

drain_deadline_lem :
    (now : ℕ) (b : Backend)
    → b.state ≡ draining
    → b.drain_deadline_at ≤ now
    → (poll now b).0.state ≡ faulted
unfolding poll poll_step advance_drain enter_fault
drain_deadline_lem now b e le = ground arith

-- A poll of a draining backend makes no call of the sink, whatever the daemon sends. The backend
-- drains on, is disconnected or is faulted behind it, and it is faulted if the deadline is over.
pub poll_draining :
    (now : ℕ) (b : Backend)
    → Inv b
    → b.state ≡ draining
    → let (b', events) = poll now b in
      (events ≡ [])
      × ((b'.state ≡ draining) ⊎ ((b'.state ≡ disconnected) ⊎ (b'.state ≡ faulted)))
      × ((now < b.drain_deadline_at) ⊎ (b'.state ≡ faulted))
unfolding poll poll_step
poll_draining now b v e =
    let fresh : Backend = record b { events = [] } in
    let h : Draining fresh = ground (arith, v.parser_bounded) in
    let settled = advance_drain-Settled now fresh h in
    (
      ground (arith, settled.silent, e),
      ground (arith, settled.where_to, e),
      ground (arith, drain_deadline_lem now b e),
    )
