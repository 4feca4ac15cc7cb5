-- ===== src/Loraham/Backend/Conf.antt =====
-- The CONF socket: lines put together from reads, and what each line means.
pub mod Keeps
use meshcom_loraham_bridge.Prelude.{
  ℕ, ◌+◌, Bool, true, false, ◌&&◌, ◌||◌, not, List, [], ◌∷◌, ◌++◌, ltb, ◌==◌, if◌then◌else◌, length,
  Bytes, codes,
}
use meshcom_loraham_bridge.Loraham.Framing.{bytes_eq, starts_with, status_line_radio_ready}
use meshcom_loraham_bridge.Loraham.Link.{
  Link, Recv, recv_failed, received, conf_reads, read_chunk, chunk_of,
}
use meshcom_loraham_bridge.Loraham.Backend.{Backend}

abbrev pub max_conf_line : ℕ
max_conf_line = 1024

unfoldable pub is_broadcast_line : Bytes → Bool
is_broadcast_line s =
    starts_with s (codes "TX=") || starts_with s (codes "CAD=") || starts_with s (codes "RSSI=")

is_empty : Bytes → Bool
is_empty [] = true
is_empty (c ∷ s) = false

-- `pop_back` while the last character is '\r', ' ' or '\t'
unfoldable pub strip_right : Bytes → Bytes
unfolding is_empty
strip_right [] = []
strip_right (c ∷ s) =
    let rest = strip_right s in
    if (c == b'\r' || c == b' ' || c == b'\t') && is_empty rest then [] else c ∷ rest

-- What one line does: it is passed over, it is the status reply, or it is fatal.
pub data LineAction : Type 0 where
  skip : LineAction
  status : Bool → LineAction
  fatal : LineAction

-- The body of the loop over lines, on a line that is stripped.
unfoldable pub line_action : Bool → Bytes → LineAction
unfolding is_empty
line_action awaiting_status line =
    if is_empty line
    then skip
    else if is_broadcast_line line
    then skip
    else if awaiting_status && bytes_eq line (codes "OK")
    then skip
    else if awaiting_status && starts_with line (codes "ERR")
    then fatal
    else if starts_with line (codes "STATUS")
    then (if awaiting_status then status (status_line_radio_ready line) else fatal)
    else fatal

-- How the loop over the lines at hand ends: the last line is unfinished, a status reply is accepted
-- or a line is fatal. The bytes behind the line are kept.
pub data Scan : Type 0 where
  unfinished : Bytes → Scan
  got_status : Bool → Bytes → Scan
  scan_failed : Bytes → Scan

-- The loop over the lines; `line` is the part of a line that has been passed.
unfoldable pub scan_lines : Bool → Bytes → Bytes → Scan
scan_lines awaiting line [] = unfinished line
scan_lines awaiting line (c ∷ s) =
    let next_line = scan_lines awaiting [] s in
    let same_line = scan_lines awaiting (line ++ c ∷ []) s in
    if c == b'\n'
    then elim (line_action awaiting (strip_right line)) [
      | skip ↦ next_line
      | status r ↦ got_status r s
      | fatal ↦ scan_failed s
    ]
    else same_line

pub data ConfResult : Type 0 where
  conf_idle : ConfResult
  conf_status : Bool → ConfResult
  conf_failed : ConfResult

abbrev pub set_conf : List Recv → Bytes → Backend → Backend
set_conf reads line b = record b { link = record b.link { conf_in = reads }; conf_line = line }

-- What the loop over the reads does behind the loop over the lines: a short read is the last one.
after_scan :
    Scan → Bool → List Recv → Backend → (Bytes → ConfResult × Backend) → ConfResult × Backend
after_scan (scan_failed rest) short reads b more = (conf_failed, set_conf reads rest b)
after_scan (got_status r rest) short reads b more = (conf_status r, set_conf reads rest b)
after_scan (unfinished rest) short reads b more =
    if short then (conf_idle, set_conf reads rest b) else more rest

unfoldable pub conf_loop : Bool → List Recv → Backend → ConfResult × Backend
unfolding after_scan
conf_loop awaiting [] b = (conf_idle, set_conf [] b.conf_line b)
conf_loop awaiting (recv_failed ∷ reads) b = (conf_failed, set_conf reads b.conf_line b)
conf_loop awaiting (received bytes ∷ reads) b =
    let chunk = chunk_of bytes in
    let line = b.conf_line ++ chunk in
    let more = λ (rest : Bytes). conf_loop awaiting reads (set_conf reads rest b) in
    if length chunk == 0
    then (conf_idle, set_conf reads b.conf_line b)
    else if ltb max_conf_line (length line)
    then (conf_failed, set_conf reads line b)
    else after_scan (scan_lines awaiting [] line) (ltb (length chunk) read_chunk) reads b more

unfoldable pub pump_conf : Bool → Backend → ConfResult × Backend
pump_conf awaiting b = conf_loop awaiting (conf_reads b.link) b

-- `drain_conf_input`: the bytes are thrown away, and a failure ends the loop.
unfoldable pub discard_loop : List Recv → List Recv
discard_loop [] = []
discard_loop (recv_failed ∷ reads) = reads
discard_loop (received bytes ∷ reads) =
    let more = discard_loop reads in
    if length (chunk_of bytes) == 0
    then reads
    else if ltb (length (chunk_of bytes)) read_chunk
    then reads
    else more

unfoldable pub drain_conf_input : Backend → Backend
drain_conf_input b = record b {
  link = record b.link { conf_in = discard_loop (conf_reads b.link) };
}
