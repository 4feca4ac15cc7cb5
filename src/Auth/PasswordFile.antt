-- ===== src/Auth/PasswordFile.antt =====
-- src/auth/hmac_auth.cpp: AuthConfig::from_password_file on what a file holds.
use meshcom_loraham_bridge.Prelude.{
  ℕ, ◌+◌, ◌≤◌, ◌<◌, false, none, some, List, [], ◌∷◌, ◌++◌, append_assoc, append-nil, length,
  length-append, All, Bytes, ◌≡◌, ◌≢◌, refl, sym, subst, flatten, ◌⊎◌, inl, inr, arith,
}
use meshcom_loraham_bridge.Auth.{
  drop_last, strip_newline, read_file, from_password_file, file_password,
}

-- A file that is not too large is read whole, however the reads cut it.
read_file_lem :
    (chunks : List Bytes) (got : Bytes)
    → All (λ (c : Bytes). 0 < length c) chunks
    → length got + length (flatten chunks) ≤ 4096
    → read_file chunks got ≡ some (got ++ flatten chunks)
unfolding read_file
read_file_lem [] got v h = rw (append-nil got) refl
read_file_lem (c ∷ cs) got v h = ground (
  arith,
  v.0,
  length-append c (flatten cs),
  length-append got c,
  read_file_lem cs (got ++ c) v.1,
  append_assoc got c (flatten cs),
)

drop_last-same : (c : ℕ) (xs : Bytes) → drop_last c (xs ++ c ∷ []) ≡ some xs
unfolding drop_last
drop_last-same c [] = ground arith
drop_last-same c (x ∷ []) = ground arith
drop_last-same c (x ∷ y ∷ ys) = rw (drop_last-same c (y ∷ ys)) refl

drop_last-other : (c d : ℕ) (xs : Bytes) → d ≢ c → drop_last c (xs ++ d ∷ []) ≡ none
unfolding drop_last
drop_last-other c d [] ne = ground (arith, ne)
drop_last-other c d (x ∷ []) ne = ground (arith, ne)
drop_last-other c d (x ∷ y ∷ ys) ne = rw (drop_last-other c d (y ∷ ys) ne) refl

-- The ends of the last line that from_password_file takes off.
abbrev pub LineEnd : Bytes → Type 0
LineEnd bytes = (bytes ≡ []) ⊎ (bytes ≡ b'\n' ∷ []) ⊎ (bytes ≡ b'\r' ∷ b'\n' ∷ [])

strip_newline_lem :
    (xs : Bytes) (c : ℕ) (ending : Bytes)
    → c ≢ b'\n'
    → c ≢ b'\r'
    → LineEnd ending
    → strip_newline ((xs ++ c ∷ []) ++ ending) ≡ xs ++ c ∷ []
unfolding strip_newline
strip_newline_lem xs c ending n r k = elim k [
  | inl e ↦ subst Reads (sym e) (
      rw (strip_newline, append-nil (xs ++ c ∷ []), drop_last-other b'\n' c xs n)
        (append-nil (xs ++ c ∷ [])))
  | inr (inl e) ↦
      subst Reads (sym e)
        (rw (strip_newline, drop_last-same b'\n' (xs ++ c ∷ []), drop_last-other b'\r' c xs r) refl)
  | inr (inr e) ↦ subst Reads (sym e) (
      rw
        (
          sym (append_assoc (xs ++ c ∷ []) (b'\r' ∷ []) (b'\n' ∷ [])),
          strip_newline,
          drop_last-same b'\n' ((xs ++ c ∷ []) ++ b'\r' ∷ []),
          drop_last-same b'\r' (xs ++ c ∷ []),
        )
        refl)
]
  where
    Reads : Bytes → Type 0
    Reads b = strip_newline ((xs ++ c ∷ []) ++ b) ≡ xs ++ c ∷ []

-- A password that does not end in CR or LF is read back from a file that holds it and at most one
-- line end, LF or CRLF, however the reads cut the file, if the file has at most 4096 bytes.
pub from_password_file_lem :
    (chunks : List Bytes) (xs : Bytes) (c : ℕ) (ending : Bytes)
    → All (λ (b : Bytes). 0 < length b) chunks
    → flatten chunks ≡ (xs ++ c ∷ []) ++ ending
    → length (flatten chunks) ≤ 4096
    → c ≢ b'\n'
    → c ≢ b'\r'
    → LineEnd ending
    → from_password_file (some chunks) false ≡ file_password (xs ++ c ∷ [])
unfolding from_password_file
from_password_file_lem chunks [] c ending v e h n r k =
    rw
      (
        from_password_file,
        read_file_lem chunks [] v (omega (arith, h)),
        e,
        strip_newline_lem [] c ending n r k,
      )
      refl
from_password_file_lem chunks (x ∷ xs) c ending v e h n r k =
    rw
      (
        from_password_file,
        read_file_lem chunks [] v (omega (arith, h)),
        e,
        strip_newline_lem (x ∷ xs) c ending n r k,
      )
      refl
