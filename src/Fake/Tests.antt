-- ===== src/Fake/Tests.antt =====
-- A run of the fake backend, and the theorem at it.
use meshcom_loraham_bridge.Prelude.{◌+◌, ◌≤◌, true, false, none, some, [], ◌∷◌, length, ◌≡◌, refl}
use meshcom_loraham_bridge.Radio.{zero_config, rx, tx_complete, channel_busy, timeout}
use meshcom_loraham_bridge.Loraham.Backend.Credit.{completes}
use meshcom_loraham_bridge.Fake.{FakeBackend, exact, fake_poll}
use meshcom_loraham_bridge.Fake.Results.{in_flight, fake_poll-completes}

-- A packet is in flight, one has been received, and a stale result is scripted.
abbrev scripted : FakeBackend
scripted = record {
  sink = true;
  started = true;
  configured = true;
  config_mode = exact;
  forced_effective = zero_config;
  config_pending = false;
  config_token = 1;
  next_token = 1;
  pending_requested = zero_config;
  tx_pending = true;
  submit_count = 1;
  next_tx_outcome = none;
  pending_tx_result = some channel_busy;
  stale_completions = timeout ∷ [];
  rx_queue = (record { rssi_cdbm = 1; snr_cdb = 2; payload = 3 ∷ [] }) ∷ [];
  fail_pending = false;
}

scripted_events :
    (fake_poll 0 scripted).1
    ≡ rx (record { rssi_cdbm = 1; snr_cdb = 2; payload = 3 ∷ [] })
      ∷ tx_complete channel_busy
      ∷ tx_complete timeout
      ∷ []
unfolding fake_poll
scripted_events = refl

fake_poll-completes_example :
    completes (fake_poll 0 scripted).1
      + in_flight (fake_poll 0 scripted).0.tx_pending
      + length (fake_poll 0 scripted).0.stale_completions
    ≤ in_flight true + 1
fake_poll-completes_example = fake_poll-completes 0 scripted
