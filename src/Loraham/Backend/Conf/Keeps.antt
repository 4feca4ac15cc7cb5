-- ===== src/Loraham/Backend/Conf/Keeps.antt =====
-- Reading the CONF socket changes nothing but that socket's input and the line at hand, which stays
-- bounded.
use meshcom_loraham_bridge.Prelude.{
  ◌+◌, ◌≤◌, Bool, true, false, List, [], ◌∷◌, ◌++◌, length, length-append, Bytes, ◌≡◌, ◌⊎◌, inl,
  inr, refl, ltb, ◌==◌, Bool-cases, ltb-false→le, arith,
}
use meshcom_loraham_bridge.Loraham.Link.{Recv, recv_failed, received, chunk_of}
use meshcom_loraham_bridge.Loraham.Backend.{Backend}
use meshcom_loraham_bridge.Loraham.Backend.Conf.{
  scan_lines, Scan, unfinished, got_status, scan_failed, ConfResult, conf_failed, conf_loop,
  after_scan, set_conf, max_conf_line,
}

abbrev pub left_over : Scan → Bytes
left_over (unfinished rest) = rest
left_over (got_status r rest) = rest
left_over (scan_failed rest) = rest

scan_lines_size :
    (awaiting : Bool) (line s : Bytes)
    → length (left_over (scan_lines awaiting line s)) ≤ length line + length s
unfolding scan_lines
scan_lines_size awaiting line [] = omega arith
scan_lines_size awaiting line (c ∷ s) = ground (
  arith,
  scan_lines_size awaiting [] s,
  scan_lines_size awaiting (line ++ c ∷ []) s,
  length-append line (c ∷ []),
)

-- Only the socket's input and the line change, and the line is too long only on a failure.
abbrev pub ConfRun : Backend → ConfResult × Backend → Type 0
ConfRun b (r, c) =
    (reads : List Recv) × (line : Bytes) × (c ≡ set_conf reads line b)
    × ((r ≡ conf_failed) ⊎ (length line ≤ max_conf_line))

after_scan-ConfRun :
    (sc : Scan) (short : Bool) (reads : List Recv) (b : Backend)
    (more : Bytes → ConfResult × Backend)
    → length (left_over sc) ≤ max_conf_line
    → ((rest : Bytes) → length rest ≤ max_conf_line → ConfRun b (more rest))
    → ConfRun b (after_scan sc short reads b more)
unfolding after_scan
after_scan-ConfRun (scan_failed rest) short reads b more h later = (reads, rest, refl, inl refl)
after_scan-ConfRun (got_status r rest) short reads b more h later = (reads, rest, refl, inr h)
after_scan-ConfRun (unfinished rest) true reads b more h later = (reads, rest, refl, inr h)
after_scan-ConfRun (unfinished rest) false reads b more h later = later rest h

pub conf_loop-ConfRun :
    (awaiting : Bool) (reads : List Recv) (b : Backend)
    → length b.conf_line ≤ max_conf_line
    → ConfRun b (conf_loop awaiting reads b)
unfolding conf_loop
conf_loop-ConfRun awaiting [] b h = ([], b.conf_line, refl, inr h)
conf_loop-ConfRun awaiting (recv_failed ∷ reads) b h = (reads, b.conf_line, refl, inl refl)
conf_loop-ConfRun awaiting (received bytes ∷ reads) b h =
    let line = b.conf_line ++ chunk_of bytes in
    elim (Bool-cases (length (chunk_of bytes) == 0)) [
      | inl e ↦ rw e (reads, b.conf_line, refl, inr h)
      | inr e ↦ rw e (elim (Bool-cases (ltb max_conf_line (length line))) [
        | inl e' ↦ rw e' (reads, line, refl, inl refl)
        | inr e' ↦ rw e' (
            after_scan-ConfRun (scan_lines awaiting [] line) _ reads b _
              (omega (arith, scan_lines_size awaiting [] line, ltb-false→le _ _ e'))
              (λ rest le. conf_loop-ConfRun awaiting reads (set_conf reads rest b) le))
      ])
    ]
