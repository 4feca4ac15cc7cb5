-- ===== src/Rflog/Whole.antt =====
-- src/util/rflog.cpp: the lines of the frames that the backend logs.
use meshcom_loraham_bridge.Prelude.{
  ℕ, ◌+◌, ◌-◌, ◌*◌, ◌/◌, ◌%◌, ◌≤◌, ◌<◌, [], ◌∷◌, ◌++◌, append_assoc, append-nil, length,
  length-append, take_all, Bytes, codes, ◌≡◌, sym, ap, arith,
}
use meshcom_loraham_bridge.Loraham.Backend.{RfEntry, rx_line, tx_line}
use meshcom_loraham_bridge.Rflog.{
  Line, put, hex_digit, put_hex, ascii_of, put_ascii, finish, append_payload, head_line, rx_head,
  tx_head, format_rx, format_tx, line_max, outcome_name, entry_line,
}
use meshcom_loraham_bridge.Rflog.Lines.{
  rx_rest, rx_rest-Fits, tx_rest, tx_rest-Fits, outcome_name-Fits,
}

-- The digits and the characters of a payload.
pub hex_of : Bytes → Bytes
hex_of [] = []
hex_of (b ∷ rf) = hex_digit (b / 16) ∷ hex_digit (b % 16) ∷ hex_of rf

pub ascii_line : Bytes → Bytes
ascii_line [] = []
ascii_line (c ∷ rf) = ascii_of c ∷ ascii_line rf

hex_of_size : (rf : Bytes) → length (hex_of rf) ≡ 2 * length rf
unfolding hex_of
hex_of_size [] = omega arith
hex_of_size (b ∷ rf) = omega (arith, hex_of_size rf)

ascii_line_size : (rf : Bytes) → length (ascii_line rf) ≡ length rf
unfolding ascii_line
ascii_line_size [] = omega arith
ascii_line_size (c ∷ rf) = omega (arith, ascii_line_size rf)

-- The buffer that holds this text, and all of it.
abbrev whole : Bytes → Line
whole t = record { text = t; pos = length t }

module _ (room : ℕ) where
  put-whole : (t s : Bytes) → length s + length t < room → put room t (whole s) ≡ whole (s ++ t)
  unfolding put
  put-whole t s h =
      ground (arith, take_all (room - 1 - length s) t (omega (arith, h)), length-append s t)

  put_hex-whole :
      (rf s : Bytes)
      → length s + 2 * length rf < room
      → put_hex room rf (whole s) ≡ whole (s ++ hex_of rf)
  unfolding put_hex hex_of
  put_hex-whole [] s h = ap whole (sym (append-nil s))
  put_hex-whole (b ∷ rf) s h =
      let pair : Bytes = hex_digit (b / 16) ∷ hex_digit (b % 16) ∷ [] in
      let ih = put_hex-whole rf (s ++ pair) (omega (arith, length-append s pair)) in
      ground (arith, ih, length-append s pair, append_assoc s pair (hex_of rf))

  put_ascii-whole :
      (rf s : Bytes)
      → length s + length rf < room
      → put_ascii room rf (whole s) ≡ whole (s ++ ascii_line rf)
  unfolding put_ascii ascii_line
  put_ascii-whole [] s h = ap whole (sym (append-nil s))
  put_ascii-whole (c ∷ rf) s h =
      let one : Bytes = ascii_of c ∷ [] in
      let ih = put_ascii-whole rf (s ++ one) (omega (arith, length-append s one)) in
      ground (arith, ih, length-append s one, append_assoc s one (ascii_line rf))

  head_line-whole : (t : Bytes) → length t < room → head_line room t ≡ whole t
  unfolding head_line
  head_line-whole t h = ground (arith, take_all (room - 1) t (omega (arith, h)))

  finish-whole : (s : Bytes) → length s < room → finish room (whole s) ≡ s
  unfolding finish
  finish-whole s h = ground arith

-- What stands behind the head of a line.
pub payload_text : Bytes → Bytes
payload_text rf =
    codes " hex=" ++ (hex_of rf ++ (codes " ascii=\"" ++ (ascii_line rf ++ codes "\"\n")))

payload_size : (rf : Bytes) → length (payload_text rf) ≡ 15 + 3 * length rf
unfolding payload_text
payload_size rf = omega (
  arith,
  length-append (codes " hex=")
      (hex_of rf ++ (codes " ascii=\"" ++ (ascii_line rf ++ codes "\"\n"))),
  length-append (hex_of rf) (codes " ascii=\"" ++ (ascii_line rf ++ codes "\"\n")),
  length-append (codes " ascii=\"") (ascii_line rf ++ codes "\"\n"),
  length-append (ascii_line rf) (codes "\"\n"),
  hex_of_size rf,
  ascii_line_size rf,
)

append_payload-whole :
    (room : ℕ) (rf t : Bytes)
    → length t + (15 + 3 * length rf) < room
    → append_payload room rf (whole t) ≡ t ++ payload_text rf
unfolding append_payload payload_text
append_payload-whole room rf t h =
    let a = t ++ codes " hex=" in
    let b = a ++ hex_of rf in
    let c = b ++ codes " ascii=\"" in
    let d = c ++ ascii_line rf in
    let la = length-append t (codes " hex=") in
    let lb = length-append a (hex_of rf) in
    let lc = length-append b (codes " ascii=\"") in
    let ld = length-append c (ascii_line rf) in
    let le = length-append d (codes "\"\n") in
    let lh = hex_of_size rf in
    let li = ascii_line_size rf in
    rw
      (
        append_payload,
        put-whole room (codes " hex=") t (omega arith),
        put_hex-whole room rf a (omega arith),
        put-whole room (codes " ascii=\"") b (omega arith),
        put_ascii-whole room rf c (omega arith),
        put-whole room (codes "\"\n") d (omega arith),
        finish-whole room (d ++ codes "\"\n") (omega arith),
      )
      (simp append_assoc)

-- The line that belongs to an entry.
pub whole_line : Bytes → RfEntry → Bytes
whole_line utc (rx_line rssi snr rf) = rx_head utc rssi snr (length rf) ++ payload_text rf
whole_line utc (tx_line outcome rf) =
    tx_head utc (outcome_name outcome) (length rf) ++ payload_text rf

abbrev pub payload_of : RfEntry → Bytes
payload_of (rx_line rssi snr rf) = rf
payload_of (tx_line outcome rf) = rf

-- With a time of at most 39 bytes, which is what its buffer has room for, the line of a packet of at
-- most 255 bytes is never cut: it has all the digits and characters of the payload.
pub entry_line_lem :
    (utc : Bytes) (e : RfEntry)
    → length utc ≤ 39
    → length (payload_of e) ≤ 255
    → entry_line utc e ≡ whole_line utc e
unfolding entry_line whole_line format_rx format_tx rx_head tx_head
entry_line_lem utc (rx_line rssi snr rf) h k =
    let rest = rx_rest rssi snr (length rf) in
    let size = length-append utc rest in
    let small = (rx_rest-Fits rssi snr (length rf)).1 in
    rw (head_line-whole line_max (utc ++ rest) (omega arith))
      (append_payload-whole line_max rf (utc ++ rest) (omega arith))
entry_line_lem utc (tx_line outcome rf) h k =
    let rest = tx_rest (outcome_name outcome) (length rf) in
    let size = length-append utc rest in
    let small = (tx_rest-Fits (outcome_name outcome) (length rf) (outcome_name-Fits outcome)).1 in
    rw (head_line-whole line_max (utc ++ rest) (omega arith))
      (append_payload-whole line_max rf (utc ++ rest) (omega arith))
