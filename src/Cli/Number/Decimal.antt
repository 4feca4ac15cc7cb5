-- ===== src/Cli/Number/Decimal.antt =====
-- src/main.cpp: an option's number in decimal digits.
use meshcom_loraham_bridge.Prelude.{
  ℕ, zero, suc, ◌+◌, ◌/◌, ◌%◌, ◌^◌, ◌≤◌, ◌<◌, false, some, [], ◌∷◌, ◌++◌, ltb, append-nil,
  append_assoc, Bytes, ◌≡◌, refl, sym, ap, ◌∙◌, arith, if_split, ltb→lt,
}
use meshcom_loraham_bridge.Loraham.Config.{decimal_on, decimal}
use meshcom_loraham_bridge.Cli.Number.{
  skip_space, sign, digits, starts_digit, to_ulong, strtoul, port_number, ms_number,
}

digits-decimal_on : (d n : ℕ) (s : Bytes) → n < 10 ^ d → digits (decimal_on d n ++ s) 0 ≡ digits s n
unfolding decimal_on digits
digits-decimal_on zero n s h = ap (digits s) (omega (arith, h))
digits-decimal_on (suc d) n s h =
    let last : Bytes = (b'0' + n % 10) ∷ [] in
    let ih = digits-decimal_on d (n / 10) (last ++ s) (omega (arith, h)) in
    if_split (λ (x : Bytes). digits (x ++ s) 0 ≡ digits s n) (ltb n 10) _ _ (λ e. ground arith)
      (λ e.
        ap (λ (x : Bytes). digits x 0) (append_assoc (decimal_on d (n / 10)) last s)
        ∙ ih
        ∙ ground arith)

-- It begins with a digit.
abbrev Digits : Bytes → Type 0
Digits s = (k : ℕ) × (rest : Bytes) × (k < 10) × (s ≡ (b'0' + k) ∷ rest)

decimal_on-Digits : (d n : ℕ) → Digits (decimal_on (suc d) n)
unfolding decimal_on
decimal_on-Digits zero n =
    if_split Digits (ltb n 10) _ _ (λ e. (n, [], ltb→lt n 10 e, refl))
      (λ e. (n % 10, [], omega arith, refl))
decimal_on-Digits (suc d) n =
    let (k, rest, small, e') = decimal_on-Digits d (n / 10) in
    if_split Digits (ltb n 10) _ _ (λ e. (n, [], ltb→lt n 10 e, refl))
      (λ e.
        (k, rest ++ (b'0' + n % 10) ∷ [], small, ap (λ (x : Bytes). x ++ (b'0' + n % 10) ∷ []) e'))

strtoul-digit :
    (k : ℕ) (rest : Bytes)
    → k < 10
    → strtoul ((b'0' + k) ∷ rest)
      ≡ to_ulong false (digits ((b'0' + k) ∷ rest) 0).0 (digits ((b'0' + k) ∷ rest) 0).1
unfolding strtoul skip_space sign starts_digit
strtoul-digit k rest h = ground arith

strtoul-decimal : (n : ℕ) → n < 10 ^ 10 → strtoul (decimal n) ≡ to_ulong false n []
unfolding decimal digits
strtoul-decimal n h =
    let (k, rest, small, e) = decimal_on-Digits 9 n in
    let read : digits (decimal_on 10 n) 0 ≡ (n, []) =
      ap (λ (x : Bytes). digits x 0) (sym (append-nil (decimal_on 10 n)))
      ∙ digits-decimal_on 10 n [] h in
    ap strtoul e
    ∙ strtoul-digit k rest small
    ∙ ap (λ (x : ℕ × Bytes). to_ulong false x.0 x.1) (ap (λ (x : Bytes). digits x 0) (sym e) ∙ read)

-- The number of an option that is written in decimal digits is taken as it is, if it is in range.
pub port_number-decimal : (n : ℕ) → n ≤ 65535 → port_number (decimal n) ≡ some n
unfolding port_number to_ulong
port_number-decimal n h = rw (strtoul-decimal n (omega (arith, h))) (ground arith)

pub ms_number-decimal : (n : ℕ) → 1 ≤ n → n ≤ 3600000 → ms_number (decimal n) ≡ some n
unfolding ms_number to_ulong
ms_number-decimal n h k = rw (strtoul-decimal n (omega (arith, k))) (ground arith)
