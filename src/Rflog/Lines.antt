-- ===== src/Rflog/Lines.antt =====
-- src/util/rflog.cpp: format_rx and format_tx on a buffer of any size.
use meshcom_loraham_bridge.Prelude.{
  ℕ, ◌-◌, ◌/◌, ◌≤◌, true, [], ◌∷◌, ◌++◌, ltb, length, All-append, Bytes, codes, ◌≡◌, arith, if_rule,
  if_split, ltb→lt,
}
use meshcom_loraham_bridge.Loraham.Config.{decimal}
use meshcom_loraham_bridge.Loraham.Config.Command.{IsText, Fits, Fits-append, decimal-Fits}
use meshcom_loraham_bridge.Loraham.Backend.{TxLogOutcome, ok, unconfirmed}
use meshcom_loraham_bridge.Rflog.{
  hundredths, centi, rx_head, tx_head, format_rx, format_tx, outcome_name,
}
use meshcom_loraham_bridge.Rflog.Format.{NotNewline, Clean, OneLine, append_payload-OneLine}

IsText-Clean : (s : Bytes) → IsText s → Clean s
IsText-Clean [] h = tt
IsText-Clean (c ∷ s) h = ((λ e. omega (arith, h.0, e)), IsText-Clean s h.1)

hundredths-Fits : (n : ℕ) → Fits 13 (hundredths n)
unfolding hundredths
hundredths-Fits n = Fits-append 10 3 (decimal (n / 100)) _ (decimal-Fits _) (omega arith)

centi-Fits : (v : ℕ) → Fits 14 (centi v)
unfolding centi
centi-Fits v =
    if_rule (Fits 14) (ltb v 32768) _ _
      ((hundredths-Fits v).0, omega (arith, (hundredths-Fits v).1))
      (Fits-append 1 13 (b'-' ∷ []) _ (omega arith) (hundredths-Fits (65536 - v)))

-- The head of a line behind the time.
abbrev pub rx_rest : ℕ → ℕ → ℕ → Bytes
rx_rest rssi snr len =
    codes " RX rssi="
    ++ (centi rssi ++ (codes " snr=" ++ (centi snr ++ (codes " len=" ++ decimal len))))

pub rx_rest-Fits : (rssi snr len : ℕ) → Fits 57 (rx_rest rssi snr len)
rx_rest-Fits rssi snr len = Fits-append 9 48 (codes " RX rssi=") _ (omega arith) (
    Fits-append 14 34 (centi rssi) _ (centi-Fits rssi) (
      Fits-append 5 29 (codes " snr=") _ (omega arith) (
        Fits-append 14 15 (centi snr) _ (centi-Fits snr)
          (Fits-append 5 10 (codes " len=") _ (omega arith) (decimal-Fits len)))))

pub outcome_name-Fits : (o : TxLogOutcome) → Fits 11 (outcome_name o)
unfolding outcome_name
outcome_name-Fits ok = omega arith
outcome_name-Fits unconfirmed = omega arith

abbrev pub tx_rest : Bytes → ℕ → Bytes
tx_rest outcome len =
    codes " TX rssi=- snr=- len=" ++ (decimal len ++ (codes " outcome=" ++ outcome))

pub tx_rest-Fits : (outcome : Bytes) (len : ℕ) → Fits 11 outcome → Fits 51 (tx_rest outcome len)
tx_rest-Fits outcome len h = Fits-append 21 30 (codes " TX rssi=- snr=- len=") _ (omega arith) (
    Fits-append 10 20 (decimal len) _ (decimal-Fits len)
      (Fits-append 9 11 (codes " outcome=") outcome (omega arith) h))

-- A line of RF metadata and payload is one line with its newline at the end, and fits the buffer with
-- its NUL, whatever the size of the buffer, from 8 bytes on, and of the payload, if the time and the
-- name of the outcome hold no newline.
pub format-OneLine :
    (room : ℕ) (utc : Bytes) (rssi snr : ℕ) (outcome rf : Bytes)
    → 8 ≤ room
    → Clean utc
    → Clean outcome
    → OneLine (room - 1) (format_rx room utc rssi snr rf)
      × OneLine (room - 1) (format_tx room utc outcome rf)
unfolding format_rx format_tx rx_head tx_head
format-OneLine room utc rssi snr outcome rf wide c o =
    let rest = rx_rest rssi snr (length rf) in
    let rx = append_payload-OneLine room wide rf (utc ++ rest) (
      All-append NotNewline utc rest c (IsText-Clean rest (rx_rest-Fits rssi snr (length rf)).0)) in
    let tx = append_payload-OneLine room wide rf (utc ++ tx_rest outcome (length rf)) (
      All-append NotNewline utc _ c (
        All-append NotNewline (codes " TX rssi=- snr=- len=") _ (ground arith) (
          All-append NotNewline (decimal (length rf)) _
            (IsText-Clean _ (decimal-Fits (length rf)).0)
            (All-append NotNewline (codes " outcome=") outcome (ground arith) o)))) in
    let narrow : ltb room 8 ≡ true → ⊥ = λ e. omega (arith, ltb→lt room 8 e) in
    (
      if_split (OneLine (room - 1)) (ltb room 8) _ _ (λ e. absurd (narrow e)) (λ e. rx),
      if_split (OneLine (room - 1)) (ltb room 8) _ _ (λ e. absurd (narrow e)) (λ e. tx),
    )
