-- ===== src/Rflog/File.antt =====
-- src/util/rflog.cpp: the file of the RF log and its rollover. What the system calls answer is an
-- argument of each operation.
pub mod Roll
use meshcom_loraham_bridge.Prelude.{
  ℕ, ◌+◌, ◌*◌, suc, Bool, true, false, not, ◌&&◌, Option, none, some, List, [], ◌∷◌, ◌++◌, ltb,
  ◌==◌, if◌then◌else◌, length, take, drop, min, Bytes,
}
use meshcom_loraham_bridge.Loraham.Backend.{RfEntry}
use meshcom_loraham_bridge.Rflog.{entry_line}

abbrev pub max_bytes_default : ℕ
max_bytes_default = 5 * 1024 * 1024

-- The file-scope variables: `is_open` is g_fd >= 0. `live` is what the file holds, and `previous`
-- what the file <path>.1 holds.
pub record LogFile : Type 0 where
  pub is_open : Bool
  pub path : Bytes
  pub max_bytes : ℕ
  pub live : Bytes
  pub previous : Bytes

-- What write answers: so many bytes, EINTR, or another error.
pub data WriteAnswer : Type 0 where
  took : ℕ → WriteAnswer
  write_interrupted write_failed : WriteAnswer

-- What pread answers, with the answers of the writes behind it. At the end of the file it reads
-- nothing, and before it `pread_got n` reads n + 1 bytes, or what there is.
pub data CopyAnswer : Type 0 where
  pread_got : ℕ → List WriteAnswer → CopyAnswer
  pread_interrupted pread_failed : CopyAnswer

-- The answers for one line. `opens` is about <path>.1.
pub record LineAnswers : Type 0 where
  pub stat_ok : Bool
  pub opens : Bool
  pub copies : List CopyAnswer
  pub truncates : Bool
  pub writes : List WriteAnswer

abbrev pub copy_chunk : ℕ
copy_chunk = 65536

-- `while (done < n)`, with whether it got to the end and the bytes that were written. An exhausted
-- list of answers stands for a write that takes the rest.
unfoldable pub write_all : List WriteAnswer → Bytes → Bool × Bytes
write_all answers [] = (true, [])
write_all [] (b ∷ bytes) = (true, b ∷ bytes)
write_all (took n ∷ answers) (b ∷ bytes) =
    let w = min n (length (b ∷ bytes)) in
    let (all, out) = write_all answers (drop w (b ∷ bytes)) in (all, take w (b ∷ bytes) ++ out)
write_all (write_interrupted ∷ answers) (b ∷ bytes) = write_all answers (b ∷ bytes)
write_all (write_failed ∷ answers) (b ∷ bytes) = (false, [])

-- The loop of copy_to_previous on what is left to read, with what it has written.
unfoldable pub copy_loop : List CopyAnswer → Bytes → Bool × Bytes
copy_loop [] rest = (true, rest)
copy_loop (pread_interrupted ∷ answers) rest = copy_loop answers rest
copy_loop (pread_failed ∷ answers) rest = (false, [])
copy_loop (pread_got n writes ∷ answers) [] = (true, [])
copy_loop (pread_got n writes ∷ answers) (b ∷ rest) =
    let chunk = take (min (suc n) copy_chunk) (b ∷ rest) in
    let (all, out) = write_all writes chunk in
    let (ok, more) = copy_loop answers (drop (min (suc n) copy_chunk) (b ∷ rest)) in
    if all then (ok, out ++ more) else (false, out)

-- <path>.1 is emptied as it is opened.
unfoldable pub copy_to_previous : Bool → List CopyAnswer → LogFile → Bool × LogFile
copy_to_previous opens copies f =
    let (ok, out) = copy_loop copies f.live in
    if opens then (ok, record f { previous = out }) else (false, f)

roll : LineAnswers → LogFile → LogFile
roll a f =
    let (copied, f') = copy_to_previous a.opens a.copies f in
    if copied && a.truncates then record f' { live = [] } else f'

unfoldable pub write_line : LineAnswers → Bytes → LogFile → LogFile
unfolding roll
write_line a line f =
    let full = a.stat_ok && ltb f.max_bytes (length f.live + length line) in
    let f' = (if full then roll a f else f) in
    record f' { live = f'.live ++ (write_all a.writes line).1 }

starts_absolute : Bytes → Bool
starts_absolute [] = false
starts_absolute (c ∷ path) = c == b'/'

-- `found` is what the file and its <path>.1 hold, where open succeeds.
unfoldable pub open_log : Bytes → Option (Bytes × Bytes) → LogFile → Bool × LogFile
unfolding starts_absolute
open_log path found f = if not (starts_absolute path) then (false, f) else elim found [
  | none ↦ (false, f)
  | some (live, previous) ↦
      (true, record f { is_open = true; path = path; live = live; previous = previous })
]

unfoldable pub close_log : LogFile → LogFile
close_log f = record f { is_open = false; path = []; max_bytes = max_bytes_default }

abbrev pub set_max_bytes : ℕ → LogFile → LogFile
set_max_bytes n f = record f { max_bytes = n }

-- rx and tx
unfoldable pub log_entry : Bytes → LineAnswers → RfEntry → LogFile → LogFile
log_entry utc a e f = if f.is_open then write_line a (entry_line utc e) f else f
