-- ===== src/Loraham/Framing.antt =====
-- src/backend/loraham/loraham_framing.h and .cpp, with the constants of loraham_protocol.h: the
-- framed DATA protocol. A buffer of bytes is a list, so a null pointer has no counterpart.
pub mod Parse
pub mod Pump
pub mod Stream
pub mod Reads
pub mod Chunking
pub mod PumpRule
pub mod Codec
mod Tests
use meshcom_loraham_bridge.Prelude.{
  ℕ, zero, suc, ◌+◌, ◌-◌, ◌*◌, ◌/◌, ◌%◌, Bool, true, false, ◌&&◌, not, Option, none, some, List, [],
  ◌∷◌, ◌++◌, ltb, leb, ◌==◌, if◌then◌else◌, length, get_or, take, drop, Bytes, codes, u16_mod,
}
use meshcom_loraham_bridge.Radio.{TxOutcome, success, channel_busy, radio_error}

abbrev pub framed_header_len : ℕ
framed_header_len = 3

abbrev pub max_rf_payload : ℕ
max_rf_payload = 255

abbrev pub rx_meta_len : ℕ
rx_meta_len = 4

abbrev pub rx_payload_max : ℕ
rx_payload_max = rx_meta_len + max_rf_payload

abbrev pub rx_frame_max : ℕ
rx_frame_max = framed_header_len + rx_payload_max

abbrev pub tx_result_payload_len : ℕ
tx_result_payload_len = 4

-- enum FramedType
abbrev pub framed_rx_packet : ℕ
framed_rx_packet = 0x01

abbrev pub framed_tx_packet : ℕ
framed_tx_packet = 0x02

abbrev pub framed_error : ℕ
framed_error = 0x03

abbrev pub framed_tx_result : ℕ
framed_tx_result = 0x04

-- enum TxStatus, the two values that the bridge tells apart
abbrev pub tx_status_ok : ℕ
tx_status_ok = 0

abbrev pub tx_status_channel_busy : ℕ
tx_status_channel_busy = 2

abbrev pub put16le : ℕ → Bytes
put16le v = (v % 256) ∷ (v / 256 % 256) ∷ []

-- `p[0] | (p[1] << 8)` of two bytes, at offset `i`
abbrev pub get16le : Bytes → ℕ → ℕ
get16le p i = (get_or p i 0 + 256 * get_or p (i + 1) 0) % u16_mod

-- The encoders return the bytes that they write; `none` is their return value 0.
unfoldable pub encode_tx_packet : ℕ → Bytes → Option Bytes
encode_tx_packet cap rf =
    if ltb max_rf_payload (length rf)
    then none
    else if ltb cap (framed_header_len + length rf)
    then none
    else some (framed_tx_packet ∷ put16le (length rf) ++ rf)

unfoldable pub encode_rx_packet : ℕ → ℕ → ℕ → Bytes → Option Bytes
encode_rx_packet cap rssi_cdbm snr_cdb rf =
    let plen = (rx_meta_len + length rf) % u16_mod in
    if ltb max_rf_payload (length rf)
    then none
    else if ltb cap (framed_header_len + plen)
    then none
    else some (framed_rx_packet ∷ put16le plen ++ put16le rssi_cdbm ++ put16le snr_cdb ++ rf)

unfoldable pub encode_tx_result : ℕ → ℕ → ℕ → ℕ → Option Bytes
encode_tx_result cap status flags seq =
    if ltb cap (framed_header_len + tx_result_payload_len)
    then none
    else some (framed_tx_result ∷ put16le tx_result_payload_len ++ status ∷ flags ∷ put16le seq)

-- `payload` holds the first `len` bytes of the array.
pub record Frame : Type 0 where
  pub type : ℕ
  pub len : ℕ
  pub payload : Bytes

-- The first `have` bytes of the array; `have` is their number.
pub record Parser : Type 0 where
  pub buf : Bytes

pub data PopResult : Type 0 where
  need_more : PopResult
  got_frame : Frame → PopResult
  pop_error : PopResult

unfoldable pub parser_reset : Parser → Parser
parser_reset p = record p { buf = [] }

-- The number of bytes taken, and the parser after it. The refusal of a null pointer is left out.
unfoldable pub parser_push : Parser → Bytes → ℕ × Parser
parser_push p bytes =
    let space = rx_frame_max - length p.buf in
    let n = length bytes in
    let taken = if ltb n space then n else space in
    (taken, record p { buf = p.buf ++ take taken bytes })

abbrev is_daemon_type : ℕ → Bool
is_daemon_type t =
    not (not (t == framed_rx_packet) && not (t == framed_tx_result) && not (t == framed_error))

unfoldable pub parser_pop : Parser → PopResult × Parser
parser_pop p =
    let type = get_or p.buf 0 0 in
    let len = get16le p.buf 1 in
    let total = framed_header_len + len in
    if ltb (length p.buf) framed_header_len
    then (need_more, p)
    else if not (is_daemon_type type)
    then (pop_error, p)
    else if ltb rx_payload_max len
    then (pop_error, p)
    else if ltb (length p.buf) total
    then (need_more, p)
    else (
      got_frame
          (record { type = type; len = len; payload = take len (drop framed_header_len p.buf) }),
      record p { buf = drop total p.buf },
    )

-- RSSI, SNR and the RF payload of an RX_PACKET.
unfoldable pub decode_rx : Frame → Option (ℕ × ℕ × Bytes)
decode_rx f =
    let n = (f.len + u16_mod - rx_meta_len) % u16_mod in
    if not (f.type == framed_rx_packet)
    then none
    else if ltb f.len rx_meta_len
    then none
    else if ltb max_rf_payload n
    then none
    else some (get16le f.payload 0, get16le f.payload 2, take n (drop rx_meta_len f.payload))

-- Status, flags and sequence number of a TX_RESULT.
unfoldable pub decode_tx_result : Frame → Option (ℕ × ℕ × ℕ)
decode_tx_result f =
    if not (f.type == framed_tx_result)
    then none
    else if not (f.len == tx_result_payload_len)
    then none
    else some (get_or f.payload 0 0, get_or f.payload 1 0, get16le f.payload 2)

unfoldable pub map_tx_status : ℕ → TxOutcome
map_tx_status status =
    if status == tx_status_ok
    then success
    else if status == tx_status_channel_busy
    then channel_busy
    else radio_error

-- `std::string::operator==` and `compare(0, n, p) == 0`
unfoldable pub bytes_eq : Bytes → Bytes → Bool
bytes_eq [] [] = true
bytes_eq (x ∷ xs) (y ∷ ys) = x == y && bytes_eq xs ys
bytes_eq _ _ = false

unfoldable pub starts_with : Bytes → Bytes → Bool
starts_with s [] = true
starts_with [] (p ∷ ps) = false
starts_with (c ∷ s) (p ∷ ps) = c == p && starts_with s ps

-- What follows the first occurrence of a key.
after_key : Bytes → Bytes → Option Bytes
unfolding starts_with
after_key key [] = if starts_with [] key then some [] else none
after_key key (c ∷ s) =
    let rest = after_key key s in
    if starts_with (c ∷ s) key then some (drop (length key) (c ∷ s)) else rest

-- Up to the first of " \t\r\n", or to the end.
value_of : Bytes → Bytes
value_of [] = []
value_of (c ∷ s) =
    let rest = value_of s in
    if c == b' '
    then []
    else if c == b'\t'
    then []
    else if c == b'\r'
    then []
    else if c == b'\n'
    then []
    else c ∷ rest

unfoldable pub status_line_radio_ready : Bytes → Bool
unfolding after_key value_of bytes_eq
status_line_radio_ready line = elim (after_key (codes "RADIO=") line) [
  | none ↦ false
  | some v ↦ bytes_eq (value_of v) (codes "READY")
]
