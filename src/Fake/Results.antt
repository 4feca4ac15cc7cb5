-- ===== src/Fake/Results.antt =====
-- How many results the fake backend reports.
use meshcom_loraham_bridge.Prelude.{
  ℕ, ◌+◌, ◌≤◌, Bool, true, false, Option, none, some, List, [], ◌∷◌, ◌++◌, length, ◌≡◌, refl, arith,
}
use meshcom_loraham_bridge.Radio.{RxEvent, TxOutcome}
use meshcom_loraham_bridge.Loraham.Backend.Credit.{completes, completes-append}
use meshcom_loraham_bridge.Fake.{
  FakeBackend, fake_poll, rx_events, stale_events, armed_events, still_pending,
}

-- A transmission that the backend still has a result for.
abbrev pub in_flight : Bool → ℕ
in_flight true = 1
in_flight false = 0

rx_events_lem : (rs : List RxEvent) → completes (rx_events rs) ≡ 0
rx_events_lem [] = refl
rx_events_lem (r ∷ rs) = rx_events_lem rs

stale_events_lem : (os : List TxOutcome) → completes (stale_events os) ≡ length os
stale_events_lem [] = refl
stale_events_lem (o ∷ os) = omega (arith, stale_events_lem os)

armed_events_lem :
    (p : Bool) (r : Option TxOutcome)
    → completes (armed_events p r) + in_flight (still_pending p r) ≡ in_flight p
armed_events_lem true none = omega arith
armed_events_lem true (some o) = omega arith
armed_events_lem false r = omega arith

-- The results that a poll reports and the transmission in flight behind it are no more than the
-- transmission in flight before it and the stale results of the script, which are not repeated.
pub fake_poll-completes :
    (now : ℕ) (b : FakeBackend)
    → let (b', events) = fake_poll now b in
      completes events + in_flight b'.tx_pending + length b'.stale_completions
      ≤ in_flight b.tx_pending + length b.stale_completions
unfolding fake_poll
fake_poll-completes now b = ground (
  arith,
  rx_events_lem b.rx_queue,
  stale_events_lem b.stale_completions,
  armed_events_lem b.tx_pending b.pending_tx_result,
  completes-append (rx_events b.rx_queue)
      (armed_events b.tx_pending b.pending_tx_result ++ stale_events b.stale_completions),
  completes-append (armed_events b.tx_pending b.pending_tx_result)
      (stale_events b.stale_completions),
)
