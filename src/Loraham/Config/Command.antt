-- ===== src/Loraham/Config/Command.antt =====
-- What LoRaHAM's build_set_command writes.
use meshcom_loraham_bridge.Prelude.{
  ℕ, zero, suc, ◌+◌, ◌/◌, ◌%◌, ◌≤◌, ◌<◌, [], ◌∷◌, ◌++◌, Option, none, some, Bytes, length,
  length-append, All, All-append, codes, ◌≡◌, ◌≢◌, ◌⊎◌, inl, inr, refl, ◌∙◌, arith, Option-cases,
}
use meshcom_loraham_bridge.Radio.{RadioConfig}
use meshcom_loraham_bridge.Loraham.Config.{
  ConfigError, ok, bandwidth_token, validate_config, decimal_on, decimal, micros, hex_byte,
  set_line, set_command, build_set_command,
}

-- Printable ASCII.
abbrev pub IsChar : ℕ → Type 0
IsChar c = (32 ≤ c) × (c < 127)

abbrev pub IsText : Bytes → Type 0
IsText = All IsChar

-- Text of a bounded length.
abbrev pub Fits : ℕ → Bytes → Type 0
Fits n s = IsText s × (length s ≤ n)

pub Fits-append : (n m : ℕ) (xs ys : Bytes) → Fits n xs → Fits m ys → Fits (n + m) (xs ++ ys)
Fits-append n m xs ys h k =
    (All-append IsChar xs ys h.0 k.0, omega (arith, length-append xs ys, h.1, k.1))

decimal_on-Fits : (digits n : ℕ) → Fits digits (decimal_on digits n)
unfolding decimal_on
decimal_on-Fits zero n = (tt, omega arith)
decimal_on-Fits (suc d) n = ground (
  arith,
  decimal_on-Fits d (n / 10),
  Fits-append d 1 (decimal_on d (n / 10)) ((b'0' + n % 10) ∷ []),
)

pub decimal-Fits : (n : ℕ) → Fits 10 (decimal n)
unfolding decimal
decimal-Fits n = decimal_on-Fits 10 n

micros-Fits : (n : ℕ) → Fits 6 (micros n)
unfolding micros
micros-Fits n = omega arith

hex_byte-Fits : (n : ℕ) → Fits 2 (hex_byte n)
unfolding hex_byte
hex_byte-Fits n = ground arith

bandwidth_token-Fits : (hz : ℕ) (t : Bytes) → bandwidth_token hz ≡ some t → Fits 5 t
unfolding bandwidth_token
bandwidth_token-Fits hz t e = ground arith

set_line-Fits : (cfg : RadioConfig) (bw : Bytes) → Fits 5 bw → Fits 151 (set_line cfg bw)
unfolding set_line
set_line-Fits cfg bw h = Fits-append 19 132 (codes "SET MODE=LORA FREQ=") _ (omega arith) (
    Fits-append 10 122 _ _ (decimal-Fits _) (
      Fits-append 1 121 (codes ".") _ (omega arith) (
        Fits-append 6 115 _ _ (micros-Fits _) (
          Fits-append 4 111 (codes " BW=") _ (omega arith) (
            Fits-append 5 106 bw _ h (
              Fits-append 4 102 (codes " SF=") _ (omega arith) (
                Fits-append 10 92 _ _ (decimal-Fits _) (
                  Fits-append 4 88 (codes " CR=") _ (omega arith) (
                    Fits-append 10 78 _ _ (decimal-Fits _) (
                      Fits-append 5 73 (codes " CRC=") _ (omega arith) (
                        Fits-append 10 63 _ _ (decimal-Fits _) (
                          Fits-append 10 53 (codes " PREAMBLE=") _ (omega arith) (
                            Fits-append 10 43 _ _ (decimal-Fits _) (
                              Fits-append 8 35 (codes " SYNC=0x") _ (omega arith) (
                                Fits-append 2 33 _ _ (hex_byte-Fits _) (
                                  Fits-append 6 27 (codes " LDRO=") _ (omega arith) (
                                    Fits-append 10 17 _ _ (decimal-Fits _) (
                                      Fits-append 7 10 (codes " POWER=") _ (omega arith)
                                        (decimal-Fits _)))))))))))))))))))

set_command_lem :
    (cfg : RadioConfig) (bw : Bytes)
    → Fits 5 bw
    → set_command cfg bw ≡ some (set_line cfg bw ++ b'\n' ∷ [])
unfolding set_command
set_command_lem cfg bw h =
    ground (arith, (set_line-Fits cfg bw h).1, length-append (set_line cfg bw) (b'\n' ∷ []))

ok_or_not : (e : ConfigError) → (e ≢ ok) ⊎ (e ≡ ok)
ok_or_not ok = inr refl
ok_or_not _ = inl (λ h. cc)

abbrev token_or_empty : Option Bytes → Bytes
token_or_empty none = []
token_or_empty (some t) = t

token-Fits : (hz : ℕ) → Fits 5 (token_or_empty (bandwidth_token hz))
token-Fits hz = elim (Option-cases (bandwidth_token hz)) [
  | inl e ↦ rw e (omega arith)
  | inr (t, e) ↦ rw e (bandwidth_token-Fits hz t e)
]

build_accepted :
    (cfg : RadioConfig)
    → (validate_config cfg).0 ≡ ok
    → build_set_command cfg ≡ set_command cfg (token_or_empty (bandwidth_token cfg.bw_hz))
unfolding build_set_command
build_accepted cfg e = ground arith

build_refused : (cfg : RadioConfig) → (validate_config cfg).0 ≢ ok → build_set_command cfg ≡ none
unfolding build_set_command
build_refused cfg h = ground arith

-- The command is refused exactly when the configuration is; else it is one line of printable text,
-- no longer than the buffer, and its newline.
pub build_set_command_lem :
    (cfg : RadioConfig)
    → (((validate_config cfg).0 ≢ ok) × (build_set_command cfg ≡ none))
      ⊎ (((validate_config cfg).0 ≡ ok)
          × ((line : Bytes) × (build_set_command cfg ≡ some (line ++ b'\n' ∷ []))
              × IsText line
              × (length line < 255)))
build_set_command_lem cfg = elim (ok_or_not (validate_config cfg).0) [
  | inl no_good ↦ inl (no_good, build_refused cfg no_good)
  | inr good ↦
      let bw = token_or_empty (bandwidth_token cfg.bw_hz) in
      let fits = token-Fits cfg.bw_hz in
      let line = set_line-Fits cfg bw fits in
      inr (
        good,
        (
          set_line cfg bw,
          build_accepted cfg good ∙ set_command_lem cfg bw fits,
          line.0,
          omega (arith, line.1),
        ),
      )
]
