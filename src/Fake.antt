-- ===== src/Fake.antt =====
-- src/backend/fake_backend.h and fake_backend.cpp: the backend for tests, with scripted results.
pub mod Results
mod Tests
use meshcom_loraham_bridge.Prelude.{
  ℕ, ◌+◌, Bool, true, false, ◌&&◌, not, Option, none, some, List, [], ◌∷◌, ◌++◌, ltb, if◌then◌else◌,
  length, Bytes, u64_max, inc32,
}
use meshcom_loraham_bridge.Radio.{
  RadioBackend, RadioConfig, zero_config, RxEvent, TxOutcome, success, SinkEvent, rx, tx_complete,
  backend_failure, configure_complete, ConfigureResult, max_lora_payload,
}

pub data ConfigMode : Type 0 where
  exact failure mismatch : ConfigMode

-- `size_t` counts are not bounded.
pub record FakeBackend : Type 0 where
  pub sink : Bool
  pub started : Bool
  pub configured : Bool
  pub config_mode : ConfigMode
  pub forced_effective : RadioConfig
  pub config_pending : Bool
  pub config_token : ℕ
  pub next_token : ℕ
  pub pending_requested : RadioConfig
  pub tx_pending : Bool
  pub submit_count : ℕ
  pub next_tx_outcome : Option TxOutcome
  pub pending_tx_result : Option TxOutcome
  pub stale_completions : List TxOutcome
  pub rx_queue : List RxEvent
  pub fail_pending : Bool

unfoldable pub fake_ready : FakeBackend → Bool
fake_ready b = b.started && b.configured

unfoldable pub fake_begin_configure : ℕ → RadioConfig → FakeBackend → ℕ × FakeBackend
fake_begin_configure now requested b =
    let token = inc32 b.next_token in
    (
      token,
      record b {
        config_pending = true;
        pending_requested = requested;
        config_token = token;
        next_token = token;
      },
    )

-- `next_tx_outcome_.value_or(TxOutcome::Success)`
outcome_or_success : Option TxOutcome → TxOutcome
outcome_or_success none = success
outcome_or_success (some o) = o

unfoldable pub fake_submit_tx : Bytes → FakeBackend → Bool × FakeBackend
unfolding fake_ready outcome_or_success
fake_submit_tx bytes b =
    if not (fake_ready b)
    then (false, b)
    else if b.tx_pending
    then (false, b)
    else if ltb max_lora_payload (length bytes)
    then (false, b)
    else (
      true,
      record b {
        tx_pending = true;
        submit_count = b.submit_count + 1;
        pending_tx_result = some (outcome_or_success b.next_tx_outcome);
        next_tx_outcome = none;
      },
    )

unfoldable pub fake_abandon_pending_tx : ℕ → FakeBackend → FakeBackend
fake_abandon_pending_tx now b = record b { tx_pending = false; pending_tx_result = none }

-- The configuration is resolved as the script says.
resolve_config : FakeBackend → FakeBackend × List SinkEvent
resolve_config b =
    let answer = λ (applied : Bool) (effective : RadioConfig).
      configure_complete b.config_token (record { applied = applied; effective = effective })
      ∷ [] in
    let b' = record b { config_pending = false } in
    elim b.config_mode [
      | failure ↦ (record b' { configured = false }, answer false zero_config)
      | mismatch ↦ (record b' { configured = true }, answer true b.forced_effective)
      | exact ↦ (record b' { configured = true }, answer true b.pending_requested)
    ]

abbrev pub rx_events : List RxEvent → List SinkEvent
rx_events [] = []
rx_events (r ∷ rs) = rx r ∷ rx_events rs

abbrev pub stale_events : List TxOutcome → List SinkEvent
stale_events [] = []
stale_events (o ∷ os) = tx_complete o ∷ stale_events os

-- The result that is armed, once: it is taken where a transmission is in flight.
abbrev pub armed_events : Bool → Option TxOutcome → List SinkEvent
armed_events true (some o) = tx_complete o ∷ []
armed_events true none = []
armed_events false r = []

abbrev still_armed : Bool → Option TxOutcome → Option TxOutcome
still_armed true r = none
still_armed false r = r

abbrev still_pending : Bool → Option TxOutcome → Bool
still_pending true none = true
still_pending true (some o) = false
still_pending false r = false

deliver_all : FakeBackend → FakeBackend × List SinkEvent
deliver_all b = (
  record b {
    rx_queue = [];
    tx_pending = still_pending b.tx_pending b.pending_tx_result;
    pending_tx_result = still_armed b.tx_pending b.pending_tx_result;
    stale_completions = [];
  },
  rx_events b.rx_queue
      ++ (armed_events b.tx_pending b.pending_tx_result ++ stale_events b.stale_completions),
)

unfoldable pub fake_poll : ℕ → FakeBackend → FakeBackend × List SinkEvent
unfolding resolve_config deliver_all
fake_poll now b =
    if not b.sink
    then (b, [])
    else if b.config_pending
    then resolve_config b
    else if b.fail_pending
    then (
      record b { fail_pending = false; tx_pending = false; pending_tx_result = none },
      backend_failure ∷ [],
    )
    else deliver_all b

abbrev pub fake_backend : RadioBackend
fake_backend = record {
  Backend = FakeBackend;
  set_sink = λ s b. record b { sink = s };
  begin_configure = fake_begin_configure;
  start = λ b. record b { started = true };
  stop = λ b. record b { started = false };
  ready = fake_ready;
  next_deadline_ms = λ b. u64_max;
  submit_tx = fake_submit_tx;
  abandon_pending_tx = fake_abandon_pending_tx;
  poll = fake_poll;
}
