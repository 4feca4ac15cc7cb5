-- ===== src/Rflog.antt =====
-- src/util/rflog.h and rflog.cpp: the lines of the RF log. The file behind them is in File.
pub mod File
pub mod Format
pub mod Lines
pub mod Whole
mod Tests
use meshcom_loraham_bridge.Prelude.{
  ℕ, ◌+◌, ◌-◌, ◌/◌, ◌%◌, Bool, true, false, not, ◌&&◌, List, [], ◌∷◌, ◌++◌, ltb, leb, ◌==◌,
  if◌then◌else◌, length, take, Bytes, codes,
}
use meshcom_loraham_bridge.Loraham.Config.{decimal}
use meshcom_loraham_bridge.Loraham.Backend.{
  TxLogOutcome, ok, unconfirmed, RfEntry, rx_line, tx_line,
}

-- The buffer `out`: the bytes written to it, and the position behind the text, which snprintf counts
-- on where the text does not fit.
pub record Line : Type 0 where
  pub text : Bytes
  pub pos : ℕ

-- snprintf("%s") behind what is there: the text is cut where one byte is left for the NUL.
unfoldable pub put : ℕ → Bytes → Line → Line
put room t l = record { text = l.text ++ take (room - 1 - l.pos) t; pos = l.pos + length t }

abbrev pub hex_digit : ℕ → ℕ
hex_digit d = if ltb d 10 then b'0' + d else b'a' + (d - 10)

-- The loop over the payload's hex digits, two bytes at a time while they fit.
unfoldable pub put_hex : ℕ → Bytes → Line → Line
put_hex room [] l = l
put_hex room (b ∷ rf) l =
    let more = put_hex room rf (record {
      text = l.text ++ (hex_digit (b / 16) ∷ hex_digit (b % 16) ∷ []);
      pos = l.pos + 2;
    }) in
    if ltb (l.pos + 2) room then more else l

-- A quote and a backslash count as non-printable.
abbrev pub ascii_of : ℕ → ℕ
ascii_of c = if leb 32 c && (ltb c 127 && (not (c == b'"') && not (c == b'\\'))) then c else b'.'

unfoldable pub put_ascii : ℕ → Bytes → Line → Line
put_ascii room [] l = l
put_ascii room (c ∷ rf) l =
    let more = put_ascii room rf (record { text = l.text ++ (ascii_of c ∷ []); pos = l.pos + 1 }) in
    if ltb (l.pos + 1) room then more else l

-- The end of the record: what is cut still ends with a newline.
unfoldable pub finish : ℕ → Line → Bytes
finish room l = if leb room l.pos then take (room - 2) l.text ++ b'\n' ∷ [] else l.text

unfoldable pub append_payload : ℕ → Bytes → Line → Bytes
append_payload room rf l = finish room (
    put room (codes "\"\n") (
      put_ascii room rf
        (put room (codes " ascii=\"") (put_hex room rf (put room (codes " hex=") l)))))

-- snprintf at the start of the buffer, and the position taken from its result.
unfoldable pub head_line : ℕ → Bytes → Line
head_line room t = record {
  text = take (room - 1) t;
  pos = if ltb (length t) room then length t else room - 1;
}

-- "%.2f" of a hundredth of a number below 2 ^ 15. A double is near enough to it to give these digits.
hundredths : ℕ → Bytes
hundredths n = decimal (n / 100) ++ (b'.' ∷ (b'0' + n / 10 % 10) ∷ (b'0' + n % 10) ∷ [])

-- "%.2f" of an int16_t, by its 16-bit pattern, divided by 100.
unfoldable pub centi : ℕ → Bytes
unfolding hundredths
centi v = if ltb v 32768 then hundredths v else b'-' ∷ hundredths (65536 - v)

unfoldable pub rx_head : Bytes → ℕ → ℕ → ℕ → Bytes
rx_head utc rssi snr len =
    utc
    ++ (codes " RX rssi="
        ++ (centi rssi ++ (codes " snr=" ++ (centi snr ++ (codes " len=" ++ decimal len)))))

unfoldable pub tx_head : Bytes → Bytes → ℕ → Bytes
tx_head utc outcome len =
    utc ++ (codes " TX rssi=- snr=- len=" ++ (decimal len ++ (codes " outcome=" ++ outcome)))

-- The line; none of it where the buffer is too small. `%zu` of a length below 10 ^ 10.
unfoldable pub format_rx : ℕ → Bytes → ℕ → ℕ → Bytes → Bytes
format_rx room utc rssi snr rf =
    if ltb room 8
    then []
    else append_payload room rf (head_line room (rx_head utc rssi snr (length rf)))

unfoldable pub format_tx : ℕ → Bytes → Bytes → Bytes → Bytes
format_tx room utc outcome rf =
    if ltb room 8
    then []
    else append_payload room rf (head_line room (tx_head utc outcome (length rf)))

abbrev pub line_max : ℕ
line_max = 1024

unfoldable pub outcome_name : TxLogOutcome → Bytes
outcome_name ok = codes "ok"
outcome_name unconfirmed = codes "unconfirmed"

-- The line that rx and tx write for an entry of the backend's, at the time `utc`.
unfoldable pub entry_line : Bytes → RfEntry → Bytes
unfolding outcome_name
entry_line utc (rx_line rssi snr rf) = format_rx line_max utc rssi snr rf
entry_line utc (tx_line outcome rf) = format_tx line_max utc (outcome_name outcome) rf
