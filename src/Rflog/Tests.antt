-- ===== src/Rflog/Tests.antt =====
-- Lines and a rollover, and the theorems about the RF log at them.
use meshcom_loraham_bridge.Prelude.{true, false, [], ◌∷◌, Bytes, codes, ◌≡◌, refl, arith}
use meshcom_loraham_bridge.Loraham.Backend.{RfEntry, rx_line}
use meshcom_loraham_bridge.Rflog.{
  format_rx, format_tx, entry_line, append_payload, finish, put, put_ascii, put_hex, head_line,
  rx_head, centi,
}
use meshcom_loraham_bridge.Loraham.Config.{decimal}
use meshcom_loraham_bridge.Rflog.Format.{OneLine}
use meshcom_loraham_bridge.Rflog.Lines.{format-OneLine}
use meshcom_loraham_bridge.Rflog.Whole.{whole_line, entry_line_lem}
use meshcom_loraham_bridge.Rflog.File.{
  LogFile, took, write_failed, pread_got, pread_failed, LineAnswers, copy_to_previous, copy_loop,
  write_all, write_line,
}
use meshcom_loraham_bridge.Rflog.File.Roll.{Kept, write_line-Kept}

abbrev noon : Bytes
noon = codes "2026-01-02T12:00:00.000Z"

-- The time alone is longer than the buffer: the line is cut in it.
format-OneLine_example :
    OneLine 19 (format_rx 20 noon 57036 725 (1 ∷ b'A' ∷ []))
    × OneLine 19 (format_tx 20 noon (codes "ok") (1 ∷ b'A' ∷ []))
format-OneLine_example =
    format-OneLine 20 noon 57036 725 (codes "ok") (1 ∷ b'A' ∷ []) (omega arith) (ground arith)
      (ground arith)

abbrev heard : RfEntry
heard = rx_line 57036 725 (1 ∷ b'A' ∷ b'"' ∷ [])

entry_line_lem_example : entry_line noon heard ≡ whole_line noon heard
entry_line_lem_example = entry_line_lem noon heard (omega arith) (omega arith)

heard_line :
    entry_line noon heard
    ≡ codes "2026-01-02T12:00:00.000Z RX rssi=-85.00 snr=7.25 len=3 hex=014122 ascii=\".A.\"\n"
unfolding entry_line format_rx append_payload finish put put_ascii put_hex head_line rx_head centi
    decimal
heard_line = refl

abbrev full : LogFile
full = record {
  is_open = true;
  path = codes "/log";
  max_bytes = 4;
  live = codes "abc";
  previous = codes "old";
}

abbrev rolls : LineAnswers
rolls = record {
  stat_ok = true;
  opens = true;
  copies = pread_got 1 (took 1 ∷ []) ∷ [];
  truncates = true;
  writes = took 1 ∷ write_failed ∷ [];
}

write_line-Kept_example : Kept (codes "xy\n") full (write_line rolls (codes "xy\n") full)
write_line-Kept_example = write_line-Kept rolls (codes "xy\n") full

full_rolled :
    write_line rolls (codes "xy\n") full ≡ record full { live = codes "x"; previous = codes "abc" }
unfolding write_line copy_to_previous copy_loop write_all
full_rolled = refl

-- A copy that fails has emptied <path>.1 before.
failed_copy :
    copy_to_previous true (pread_failed ∷ []) full ≡ (false, record full { previous = [] })
unfolding copy_to_previous copy_loop
failed_copy = refl
