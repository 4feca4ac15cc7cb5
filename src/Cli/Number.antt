-- ===== src/Cli/Number.antt =====
-- src/main.cpp: the numbers of the command line, with strtoul of the C library in base 10.
pub mod Decimal
use meshcom_loraham_bridge.Prelude.{
  ℕ, ◌+◌, ◌-◌, ◌*◌, ◌%◌, ◌^◌, Bool, true, false, not, ◌&&◌, ◌||◌, Option, none, some, [], ◌∷◌, ltb,
  leb, ◌==◌, if◌then◌else◌, length, Bytes,
}

-- What strtoul gives: its value, whether it found a number at all, what stands behind the number
-- (`end`), and whether errno is ERANGE.
pub record Number : Type 0 where
  pub value : ℕ
  pub found : Bool
  pub rest : Bytes
  pub range_error : Bool

abbrev pub is_digit : ℕ → Bool
is_digit c = leb b'0' c && leb c b'9'

abbrev is_space : ℕ → Bool
is_space c = c == b' ' || (leb 9 c && leb c 13)

unfoldable pub skip_space : Bytes → Bytes
skip_space [] = []
skip_space (c ∷ s) = let more = skip_space s in if is_space c then more else c ∷ s

-- Whether there is a minus, and what follows the sign.
unfoldable pub sign : Bytes → Bool × Bytes
sign [] = (false, [])
sign (c ∷ s) = if c == b'-' then (true, s) else if c == b'+' then (false, s) else (false, c ∷ s)

-- The number that begins with `n`.
unfoldable pub digits : Bytes → ℕ → ℕ × Bytes
digits [] n = (n, [])
digits (c ∷ s) n =
    let more = digits s (n * 10 + (c - b'0')) in if is_digit c then more else (n, c ∷ s)

unfoldable pub starts_digit : Bytes → Bool
starts_digit [] = false
starts_digit (c ∷ s) = is_digit c

-- The unsigned long of 64 bits: a minus negates in it.
unfoldable pub to_ulong : Bool → ℕ → Bytes → Number
to_ulong minus n rest =
    if leb (2 ^ 64) n
    then record { value = 2 ^ 64 - 1; found = true; rest = rest; range_error = true }
    else record {
      value = if minus then (2 ^ 64 - n) % 2 ^ 64 else n;
      found = true;
      rest = rest;
      range_error = false;
    }

unfoldable pub strtoul : Bytes → Number
strtoul v =
    let (minus, s) = sign (skip_space v) in
    let (n, rest) = digits s 0 in
    if starts_digit s
    then to_ulong minus n rest
    else record { value = 0; found = false; rest = v; range_error = false }

-- `end == v || *end != '\0' || errno != 0`
abbrev pub is_malformed : Number → Bool
is_malformed p = not p.found || (not (length p.rest == 0) || p.range_error)

unfoldable pub port_number : Bytes → Option ℕ
port_number v =
    let p = strtoul v in if is_malformed p || ltb 65535 p.value then none else some p.value

unfoldable pub ms_number : Bytes → Option ℕ
ms_number v =
    let p = strtoul v in
    if is_malformed p || (ltb p.value 1 || ltb 3600000 p.value) then none else some p.value
