-- ===== src/Loraham/Config/Range.antt =====
-- Which configurations LoRaHAM's validate_config accepts.
use meshcom_loraham_bridge.Prelude.{
  ℕ, ◌≤◌, none, some, Bytes, ◌≡◌, ◌≢◌, ◌⊎◌, ◌↔◌, inl, inr, arith, Option-cases,
}
use meshcom_loraham_bridge.Radio.{RadioConfig}
use meshcom_loraham_bridge.Loraham.Config.{
  Band, band433, band868, ok, select_band, bandwidth_token, check_fields, validate_config,
}

-- The daemon's limits, as the headers and the README state them.
abbrev pub InBand : ℕ → Band → Type 0
InBand f band433 = (137000000 ≤ f) × (f ≤ 525000000)
InBand f band868 = (779000000 ≤ f) × (f ≤ 960000000)

abbrev pub IsBandwidth : ℕ → Type 0
IsBandwidth hz =
    (hz ≡ 7800)
    ⊎ (hz ≡ 10400)
    ⊎ (hz ≡ 15600)
    ⊎ (hz ≡ 20800)
    ⊎ (hz ≡ 31250)
    ⊎ (hz ≡ 41700)
    ⊎ (hz ≡ 62500)
    ⊎ (hz ≡ 125000)
    ⊎ (hz ≡ 250000)
    ⊎ (hz ≡ 500000)

pub record Serves (cfg : RadioConfig) (band : Band) : Type 0 where
  pub in_band : InBand cfg.freq_hz band
  pub bandwidth : IsBandwidth cfg.bw_hz
  pub sf_range : (7 ≤ cfg.sf) × (cfg.sf ≤ 12)
  pub cr_range : (5 ≤ cfg.cr_denom) × (cfg.cr_denom ≤ 8)
  pub sync_range : cfg.sync_word ≤ 255
  pub preamble_range : 6 ≤ cfg.preamble
  pub power_range : cfg.tx_power_dbm ≤ 20
  pub crc_range : cfg.crc ≤ 1
  pub ldro_range : cfg.ldro ≤ 1

select_band_lem : (f : ℕ) (b : Band) → (select_band f ≡ some b) ↔ InBand f b
unfolding select_band
select_band_lem f band433 = ground arith
select_band_lem f band868 = ground arith

token-IsBandwidth : (hz : ℕ) (t : Bytes) → bandwidth_token hz ≡ some t → IsBandwidth hz
unfolding bandwidth_token
token-IsBandwidth hz t e = ground arith

bandwidth-ne-none : (hz : ℕ) → IsBandwidth hz → bandwidth_token hz ≢ none
unfolding bandwidth_token
bandwidth-ne-none hz h = ground arith

pub bandwidth_found : (hz : ℕ) → IsBandwidth hz → (t : Bytes) × (bandwidth_token hz ≡ some t)
bandwidth_found hz h = elim (Option-cases (bandwidth_token hz)) [
  | inl e ↦ absurd (bandwidth-ne-none hz h e)
  | inr found ↦ found
]

check_fields_lem :
    (cfg : RadioConfig)
    → (check_fields cfg ≡ ok) ↔ (
        (7 ≤ cfg.sf)
        × (cfg.sf ≤ 12)
        × (5 ≤ cfg.cr_denom)
        × (cfg.cr_denom ≤ 8)
        × (cfg.sync_word ≤ 255)
        × (6 ≤ cfg.preamble)
        × (cfg.tx_power_dbm ≤ 20)
        × (cfg.crc ≤ 1)
        × (cfg.ldro ≤ 1))
unfolding check_fields
check_fields_lem cfg = (λ h. ground arith, λ h. ground arith)

validate_config_parts :
    (cfg : RadioConfig) (b : Band)
    → validate_config cfg ≡ (ok, some b)
    → (select_band cfg.freq_hz ≡ some b)
      × ((t : Bytes) × (bandwidth_token cfg.bw_hz ≡ some t))
      × (check_fields cfg ≡ ok)
unfolding validate_config
validate_config_parts cfg b e = ground arith

validate_config_ok :
    (cfg : RadioConfig) (b : Band) (t : Bytes)
    → select_band cfg.freq_hz ≡ some b
    → bandwidth_token cfg.bw_hz ≡ some t
    → check_fields cfg ≡ ok
    → validate_config cfg ≡ (ok, some b)
unfolding validate_config
validate_config_ok cfg b t hb ht hc = ground arith

-- A configuration is accepted for a band exactly when it lies within the daemon's limits there.
pub validate_config_iff :
    (cfg : RadioConfig) (b : Band) → (validate_config cfg ≡ (ok, some b)) ↔ Serves cfg b
validate_config_iff cfg b = (forward, backward)
  where
    forward : validate_config cfg ≡ (ok, some b) → Serves cfg b
    forward e =
        let (band, (t, token), fields) = validate_config_parts cfg b e in
        let ranges = (check_fields_lem cfg).0 fields in
        record {
          in_band = (select_band_lem cfg.freq_hz b).0 band;
          bandwidth = token-IsBandwidth cfg.bw_hz t token;
          sf_range = (ranges.0, ranges.1);
          cr_range = (ranges.2, ranges.3);
          sync_range = ranges.4;
          preamble_range = ranges.5;
          power_range = ranges.6;
          crc_range = ranges.7;
          ldro_range = ranges.8;
        }

    backward : Serves cfg b → validate_config cfg ≡ (ok, some b)
    backward s =
        let (t, token) = bandwidth_found cfg.bw_hz s.bandwidth in
        validate_config_ok cfg b t ((select_band_lem cfg.freq_hz b).1 s.in_band) token (
          (check_fields_lem cfg).1 (
            s.sf_range.0, s.sf_range.1, s.cr_range.0, s.cr_range.1, s.sync_range, s.preamble_range,
            s.power_range, s.crc_range, s.ldro_range,
          ))
