-- ===== src/Rflog/File/Roll.antt =====
-- src/util/rflog.cpp: what the rollover does to the live file.
use meshcom_loraham_bridge.Prelude.{
  ◌+◌, suc, Bool, true, ◌&&◌, List, [], ◌∷◌, ◌++◌, ltb, length, take, drop, min, Bytes, ◌≡◌, ◌⊎◌,
  refl, sym, ap, ◌∙◌, arith, inl, inr, append_assoc, append-nil, take-append-drop, if_rule,
  Bool-cases, if◌then◌else◌,
}
use meshcom_loraham_bridge.Rflog.File.{
  LogFile, WriteAnswer, took, write_interrupted, write_failed, CopyAnswer, pread_got,
  pread_interrupted, pread_failed, LineAnswers, copy_chunk, write_all, copy_loop, copy_to_previous,
  roll, write_line,
}

-- The bytes that were written are the first of those that were to be, and all of them on success.
abbrev pub Begins : Bool × Bytes → Bytes → Type 0
Begins (all, out) bytes = (rest : Bytes) × (bytes ≡ out ++ rest) × (all ≡ true → rest ≡ [])

write_all-Begins :
    (answers : List WriteAnswer) (bytes : Bytes) → Begins (write_all answers bytes) bytes
unfolding write_all
write_all-Begins answers [] = ([], refl, (λ h. refl))
write_all-Begins [] (b ∷ bytes) = ([], sym (append-nil (b ∷ bytes)), (λ h. refl))
write_all-Begins (took n ∷ answers) (b ∷ bytes) =
    let w = min n (length (b ∷ bytes)) in
    let (rest, e, all) = write_all-Begins answers (drop w (b ∷ bytes)) in
    (
      rest,
      sym (take-append-drop w (b ∷ bytes))
          ∙ ap (λ (x : Bytes). take w (b ∷ bytes) ++ x) e
          ∙ sym (append_assoc (take w (b ∷ bytes)) (write_all answers (drop w (b ∷ bytes))).1 rest),
      all,
    )
write_all-Begins (write_interrupted ∷ answers) (b ∷ bytes) = write_all-Begins answers (b ∷ bytes)
write_all-Begins (write_failed ∷ answers) (b ∷ bytes) = (b ∷ bytes, refl, (λ h. cc))

-- A copy that succeeds is whole.
copy_loop_whole :
    (answers : List CopyAnswer) (rest : Bytes)
    → (copy_loop answers rest).0 ≡ true
    → (copy_loop answers rest).1 ≡ rest
unfolding copy_loop
copy_loop_whole [] rest h = refl
copy_loop_whole (pread_interrupted ∷ answers) rest h = copy_loop_whole answers rest h
copy_loop_whole (pread_failed ∷ answers) rest h = cc
copy_loop_whole (pread_got n writes ∷ answers) [] h = refl
copy_loop_whole (pread_got n writes ∷ answers) (b ∷ rest) h =
    let k = min (suc n) copy_chunk in
    let chunk = take k (b ∷ rest) in
    let (left, e, all) = write_all-Begins writes chunk in
    let out = (write_all writes chunk).1 in
    let (more_ok, more) = copy_loop answers (drop k (b ∷ rest)) in
    elim (Bool-cases (write_all writes chunk).0) [
      | inl e' ↦
          let chunk_out : chunk ≡ out =
            e ∙ ap (λ (x : Bytes). out ++ x) (all e') ∙ append-nil out in
          let ok : (copy_loop answers (drop k (b ∷ rest))).0 ≡ true = ground (arith, h, e') in
          let tail = copy_loop_whole answers (drop k (b ∷ rest)) ok in
          rw e' (
            ap (λ (x : Bytes). x ++ more) (sym chunk_out)
            ∙ ap (λ (x : Bytes). chunk ++ x) tail
            ∙ take-append-drop k (b ∷ rest))
      | inr e' ↦ absurd (ground (arith, h, e'))
    ]

-- What a line leaves: the live file is as it was, with a beginning of the line behind it; or all of
-- it is in <path>.1, and the live file is a beginning of the line.
abbrev pub Kept : Bytes → LogFile → LogFile → Type 0
Kept line f f' =
    (out : Bytes) × (rest : Bytes) × (line ≡ out ++ rest)
    × ((f'.live ≡ f.live ++ out) ⊎ ((f'.previous ≡ f.live) × (f'.live ≡ out)))

-- The live file is as it was, or it is in <path>.1 and empty.
abbrev Rolled : LogFile → LogFile → Type 0
Rolled f f' = (f'.live ≡ f.live) ⊎ ((f'.previous ≡ f.live) × (f'.live ≡ []))

roll-Rolled : (a : LineAnswers) (f : LogFile) → Rolled f (roll a f)
unfolding roll copy_to_previous
roll-Rolled a f = elim (Bool-cases (copy_loop a.copies f.live).0) [
  | inl e ↦ ground (arith, copy_loop_whole a.copies f.live e)
  | inr e ↦ ground arith
]

-- Whatever the system answers, a line that is written loses nothing of the live file: it is emptied
-- only once <path>.1 holds all of it. What is added is the line or a beginning of it.
pub write_line-Kept :
    (a : LineAnswers) (line : Bytes) (f : LogFile) → Kept line f (write_line a line f)
unfolding write_line
write_line-Kept a line f =
    let (rest, e, all) = write_all-Begins a.writes line in
    let out = (write_all a.writes line).1 in
    let full = a.stat_ok && ltb f.max_bytes (length f.live + length line) in
    let rolled : Rolled f (if full then roll a f else f) =
      if_rule (Rolled f) full _ _ (roll-Rolled a f) (inl refl) in
    (
      out,
      rest,
      e,
      elim rolled [
        | inl same ↦ inl (ap (λ (x : Bytes). x ++ out) same)
        | inr (moved, empty) ↦ inr (moved, ap (λ (x : Bytes). x ++ out) empty)
      ],
    )
