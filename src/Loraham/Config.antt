-- ===== src/Loraham/Config.antt =====
-- src/backend/loraham/loraham_config.h and .cpp: which radio configurations the daemon serves, and
-- the CONF command that applies one.
mod Range
pub mod Command
mod Tests
use meshcom_loraham_bridge.Prelude.{
  ℕ, zero, suc, ◌+◌, ◌-◌, ◌*◌, ◌/◌, ◌%◌, Bool, true, false, ◌&&◌, ◌||◌, not, Option, none, some,
  List, [], ◌∷◌, ◌++◌, ltb, leb, ◌==◌, if◌then◌else◌, length, Bytes, codes,
}
use meshcom_loraham_bridge.Radio.{RadioConfig}

pub data Band : Type 0 where
  band433 band868 : Band

pub data ConfigError : Type 0 where
  ok frequency_out_of_band bandwidth_unsupported spreading_factor coding_rate sync_word preamble :
      ConfigError
  power crc ldro : ConfigError

abbrev pub k433_lo : ℕ
k433_lo = 137000000

abbrev pub k433_hi : ℕ
k433_hi = 525000000

abbrev pub k868_lo : ℕ
k868_lo = 779000000

abbrev pub k868_hi : ℕ
k868_hi = 960000000

unfoldable pub select_band : ℕ → Option Band
select_band freq_hz =
    if leb k433_lo freq_hz && leb freq_hz k433_hi
    then some band433
    else if leb k868_lo freq_hz && leb freq_hz k868_hi
    then some band868
    else none

-- kBwTable
abbrev pub bw_table : List (ℕ × Bytes)
bw_table =
    (7800, codes "7.8")
    ∷ (10400, codes "10.4")
    ∷ (15600, codes "15.6")
    ∷ (20800, codes "20.8")
    ∷ (31250, codes "31.25")
    ∷ (41700, codes "41.7")
    ∷ (62500, codes "62.5")
    ∷ (125000, codes "125")
    ∷ (250000, codes "250")
    ∷ (500000, codes "500")
    ∷ []

unfoldable pub find_token : ℕ → List (ℕ × Bytes) → Option Bytes
find_token bw_hz [] = none
find_token bw_hz ((hz, token) ∷ rest) =
    let more = find_token bw_hz rest in if hz == bw_hz then some token else more

unfoldable pub bandwidth_token : ℕ → Option Bytes
unfolding find_token
bandwidth_token bw_hz = find_token bw_hz bw_table

-- `tx_power_dbm < 0` of an int8_t's bit pattern
abbrev is_negative8 : ℕ → Bool
is_negative8 p = leb 128 p

unfoldable pub check_fields : RadioConfig → ConfigError
check_fields cfg =
    if ltb cfg.sf 7 || ltb 12 cfg.sf
    then spreading_factor
    else if ltb cfg.cr_denom 5 || ltb 8 cfg.cr_denom
    then coding_rate
    else if ltb 0xFF cfg.sync_word
    then sync_word
    else if ltb cfg.preamble 6
    then preamble
    else if is_negative8 cfg.tx_power_dbm || ltb 20 cfg.tx_power_dbm
    then power
    else if ltb 1 cfg.crc
    then crc
    else if ltb 1 cfg.ldro
    then ldro
    else ok

-- The error, and the band where there is none.
unfoldable pub validate_config : RadioConfig → ConfigError × Option Band
validate_config cfg = elim (select_band cfg.freq_hz) [
  | none ↦ (frequency_out_of_band, none)
  | some band ↦ elim (bandwidth_token cfg.bw_hz) [
    | none ↦ (bandwidth_unsupported, none)
    | some bw ↦ elim (check_fields cfg) [ ok ↦ (ok, some band) | e ↦ (e, none) ]
  ]
]

-- What snprintf writes for "%u" of a uint32_t, which has ten digits at most.
unfoldable pub decimal_on : ℕ → ℕ → Bytes
decimal_on zero n = []
decimal_on (suc digits) n =
    let front = decimal_on digits (n / 10) in
    if ltb n 10 then (b'0' + n) ∷ [] else front ++ (b'0' + n % 10) ∷ []

unfoldable pub decimal : ℕ → Bytes
unfolding decimal_on
decimal n = decimal_on 10 n

-- The six digits that "%.6f" writes behind the point. A frequency in Hz below 2 ^ 32 divided by a
-- million is within a double's precision of this decimal.
unfoldable pub micros : ℕ → Bytes
micros n =
    (b'0' + n / 100000 % 10)
    ∷ (b'0' + n / 10000 % 10)
    ∷ (b'0' + n / 1000 % 10)
    ∷ (b'0' + n / 100 % 10)
    ∷ (b'0' + n / 10 % 10)
    ∷ (b'0' + n % 10)
    ∷ []

abbrev hex_digit : ℕ → ℕ
hex_digit d = if ltb d 10 then b'0' + d else b'A' + (d - 10)

-- "%02X" of a byte
unfoldable pub hex_byte : ℕ → Bytes
hex_byte n = hex_digit (n / 16 % 16) ∷ hex_digit (n % 16) ∷ []

-- The line that snprintf writes, without its newline.
unfoldable pub set_line : RadioConfig → Bytes → Bytes
set_line cfg bw =
    codes "SET MODE=LORA FREQ="
    ++ (decimal (cfg.freq_hz / 1000000)
        ++ (codes "."
            ++ (micros (cfg.freq_hz % 1000000)
                ++ (codes " BW="
                    ++ (bw
                        ++ (codes " SF="
                            ++ (decimal cfg.sf
                                ++ (codes " CR="
                                    ++ (decimal cfg.cr_denom
                                        ++ (codes " CRC="
                                            ++ (decimal cfg.crc
                                                ++ (codes " PREAMBLE="
                                                    ++ (decimal cfg.preamble
                                                        ++ (codes " SYNC=0x"
                                                            ++ (hex_byte (cfg.sync_word % 256)
                                                            ++ (codes " LDRO="
                                                            ++ (decimal cfg.ldro
                                                            ++ (codes " POWER="
                                                            ++ decimal
                                                            cfg.tx_power_dbm))))))))))))))))))

set_command : RadioConfig → Bytes → Option Bytes
set_command cfg bw =
    let line = set_line cfg bw ++ b'\n' ∷ [] in
    if leb (length line) 0 || leb 256 (length line) then none else some line

-- The size of the buffer is 256; snprintf's result counts the newline.
unfoldable pub build_set_command : RadioConfig → Option Bytes
unfolding set_command
build_set_command cfg = elim (validate_config cfg).0 [
  | ok ↦ elim (bandwidth_token cfg.bw_hz) [
    | none ↦ set_command cfg []
    | some bw ↦ set_command cfg bw
  ]
  | _ ↦ none
]
