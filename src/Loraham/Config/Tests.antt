-- ===== src/Loraham/Config/Tests.antt =====
-- Concrete runs of the configuration checks.
use meshcom_loraham_bridge.Prelude.{
  ◌≡◌, ◌≢◌, ◌↔◌, ◌⊎◌, ◌<◌, refl, some, none, codes, ◌++◌, ◌∷◌, [], Bytes, length,
}
use meshcom_loraham_bridge.Radio.{RadioConfig}
use meshcom_loraham_bridge.Loraham.Config.{
  ok, band433, build_set_command, validate_config, check_fields, select_band, bandwidth_token,
  find_token, set_line, decimal, micros, hex_byte,
}
use meshcom_loraham_bridge.Loraham.Config.Range.{Serves, validate_config_iff}
use meshcom_loraham_bridge.Loraham.Config.Command.{IsText, build_set_command_lem}

-- The MeshCom 433 profile.
abbrev meshcom433 : RadioConfig
meshcom433 = record {
  freq_hz = 433175000;
  bw_hz = 250000;
  sf = 11;
  cr_denom = 6;
  sync_word = 0x2B;
  preamble = 32;
  tx_power_dbm = 17;
  crc = 1;
  ldro = 0;
}

build_set_command-meshcom433 :
    build_set_command meshcom433
    ≡ some (
        codes
          "SET MODE=LORA FREQ=433.175000 BW=250 SF=11 CR=6 CRC=1 PREAMBLE=32 SYNC=0x2B LDRO=0 POWER=17\n")
unfolding find_token build_set_command validate_config check_fields select_band bandwidth_token
    set_line decimal micros hex_byte
build_set_command-meshcom433 = refl

validate_config_iff_example :
    (validate_config meshcom433 ≡ (ok, some band433)) ↔ Serves meshcom433 band433
validate_config_iff_example = validate_config_iff meshcom433 band433

build_set_command_lem_example :
    (((validate_config meshcom433).0 ≢ ok) × (build_set_command meshcom433 ≡ none))
    ⊎ (((validate_config meshcom433).0 ≡ ok)
        × ((line : Bytes) × (build_set_command meshcom433 ≡ some (line ++ b'\n' ∷ []))
            × IsText line
            × (length line < 255)))
build_set_command_lem_example = build_set_command_lem meshcom433
