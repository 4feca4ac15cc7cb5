-- ===== src/Rflog/Format.antt =====
-- src/util/rflog.cpp: append_payload on a buffer of any size.
use meshcom_loraham_bridge.Prelude.{
  ℕ, zero, suc, ◌+◌, ◌-◌, ◌/◌, ◌%◌, ◌≤◌, ◌<◌, [], ◌∷◌, ◌++◌, append_assoc, ltb, min, length, take,
  length-append, length-take, take_all, All, All-append, Bytes, codes, ◌≡◌, ◌≢◌, sym, ap, ◌∙◌,
  arith, inl, inr, Bool-cases, if_split, ltb→lt, ltb-false→le,
}
use meshcom_loraham_bridge.Rflog.{
  Line, put, hex_digit, put_hex, ascii_of, put_ascii, finish, append_payload, head_line,
}

abbrev pub NotNewline : ℕ → Type 0
NotNewline b = b ≢ b'\n'

abbrev pub Clean : Bytes → Type 0
Clean text = All NotNewline text

-- One line of at most so many bytes.
abbrev pub OneLine : ℕ → Bytes → Type 0
OneLine most out = (body : Bytes) × (out ≡ body ++ b'\n' ∷ []) × Clean body × (length out ≤ most)

pub Clean-take : (n : ℕ) (xs : Bytes) → Clean xs → Clean (take n xs)
Clean-take zero xs h = tt
Clean-take (suc n) [] h = tt
Clean-take (suc n) (x ∷ xs) h = (h.0, Clean-take n xs h.1)

-- The text is what fits of the bytes counted, and holds no newline.
record Written (room : ℕ) (l : Line) : Type 0 where
  fits : length l.text ≡ min l.pos (room - 1)
  clean : Clean l.text

module _ (room : ℕ) (wide : 8 ≤ room) where
  put-Written : (t : Bytes) (l : Line) → Clean t → Written room l → Written room (put room t l)
  unfolding put
  put-Written t l c w = record {
    fits = omega (
      arith,
      w.fits,
      length-append l.text (take (room - 1 - l.pos) t),
      length-take (room - 1 - l.pos) t,
    );
    clean = All-append NotNewline _ _ w.clean (Clean-take (room - 1 - l.pos) t c);
  }

  hex_digit-NotNewline : (d : ℕ) → NotNewline (hex_digit d)
  hex_digit-NotNewline d = ground arith

  put_hex-Written : (rf : Bytes) (l : Line) → Written room l → Written room (put_hex room rf l)
  unfolding put_hex
  put_hex-Written [] l w = w
  put_hex-Written (b ∷ rf) l w =
      if_split (Written room) (ltb (l.pos + 2) room) _ _
        (λ e. put_hex-Written rf _ (record {
          fits = omega (
            arith,
            w.fits,
            ltb→lt _ _ e,
            length-append l.text (hex_digit (b / 16) ∷ hex_digit (b % 16) ∷ []),
          );
          clean =
              All-append NotNewline l.text _ w.clean
                (hex_digit-NotNewline (b / 16), (hex_digit-NotNewline (b % 16), tt));
        }))
        (λ e. w)

  ascii_of-NotNewline : (c : ℕ) → NotNewline (ascii_of c)
  ascii_of-NotNewline c = ground arith

  put_ascii-Written : (rf : Bytes) (l : Line) → Written room l → Written room (put_ascii room rf l)
  unfolding put_ascii
  put_ascii-Written [] l w = w
  put_ascii-Written (c ∷ rf) l w =
      if_split (Written room) (ltb (l.pos + 1) room) _ _
        (λ e. put_ascii-Written rf _ (record {
          fits = omega (arith, w.fits, ltb→lt _ _ e, length-append l.text (ascii_of c ∷ []));
          clean = All-append NotNewline l.text _ w.clean (ascii_of-NotNewline c, tt);
        }))
        (λ e. w)

  head_line-Written : (t : Bytes) → Clean t → Written room (head_line room t)
  unfolding head_line
  head_line-Written t c = record {
    fits = ground (arith, length-take (room - 1) t);
    clean = Clean-take (room - 1) t c;
  }

  cut_quote-Clean : (k : ℕ) → k ≤ 1 → Clean (take k (codes "\"\n"))
  cut_quote-Clean zero h = tt
  cut_quote-Clean (suc zero) h = (ground arith, tt)
  cut_quote-Clean (suc (suc k)) h = absurd (omega arith)

  -- The quote and the newline fit.
  finish-whole :
      (l : Line)
      → l.pos + 2 < room
      → finish room (put room (codes "\"\n") l) ≡ l.text ++ codes "\"\n"
  unfolding finish put
  finish-whole l h =
      let all : take (room - 1 - l.pos) (codes "\"\n") ≡ codes "\"\n" =
        take_all (room - 1 - l.pos) (codes "\"\n") (omega arith) in
      ground (arith, all)

  -- They do not.
  finish_cut :
      (l : Line)
      → room ≤ l.pos + 2
      → finish room (put room (codes "\"\n") l)
        ≡ take (room - 2) (l.text ++ take (room - 1 - l.pos) (codes "\"\n")) ++ b'\n' ∷ []
  unfolding finish put
  finish_cut l h = ground arith

  ends-OneLine :
      (l : Line) → Written room l → OneLine (room - 1) (finish room (put room (codes "\"\n") l))
  ends-OneLine l w = elim (Bool-cases (ltb (l.pos + 2) room)) [
    | inl e ↦
        let h = ltb→lt _ _ e in
        let whole = finish-whole l h in
        (
          l.text ++ b'"' ∷ [],
          whole ∙ sym (append_assoc l.text (b'"' ∷ []) (b'\n' ∷ [])),
          All-append NotNewline l.text _ w.clean (ground arith, tt),
          omega (
            arith,
            w.fits,
            ap (λ (x : Bytes). length x) whole,
            length-append l.text (codes "\"\n"),
          ),
        )
    | inr e ↦
        let h = ltb-false→le _ _ e in
        let cut = finish_cut l h in
        let rest = take (room - 1 - l.pos) (codes "\"\n") in
        (
          take (room - 2) (l.text ++ rest),
          cut,
          Clean-take (room - 2) _ (
              All-append NotNewline l.text rest w.clean
                (cut_quote-Clean (room - 1 - l.pos) (omega arith))),
          omega (
            arith,
            ap (λ (x : Bytes). length x) cut,
            length-append (take (room - 2) (l.text ++ rest)) (b'\n' ∷ []),
            length-take (room - 2) (l.text ++ rest),
          ),
        )
  ]

  -- Whatever the head of the line and the payload are.
  pub append_payload-OneLine :
      (rf t : Bytes) → Clean t → OneLine (room - 1) (append_payload room rf (head_line room t))
  unfolding append_payload
  append_payload-OneLine rf t c = ends-OneLine _ (
      put_ascii-Written rf _ (
        put-Written (codes " ascii=\"") _ (ground arith) (
          put_hex-Written rf _
            (put-Written (codes " hex=") _ (ground arith) (head_line-Written t c)))))
