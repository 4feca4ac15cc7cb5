-- ===== src/Auth.antt =====
-- src/auth/hmac_auth.h and hmac_auth.cpp: the password of the bridge, and the test of a client's
-- answer to the challenge. HMAC-SHA256 is OpenSSL's, so it is a parameter.
pub mod PasswordFile
mod Tests
use meshcom_loraham_bridge.Prelude.{
  ℕ, ◌+◌, Bool, true, false, not, Option, none, some, List, [], ◌∷◌, ◌++◌, ltb, ◌==◌, if◌then◌else◌,
  length, Bytes,
}
use meshcom_loraham_bridge.Loraham.Framing.{bytes_eq}

pub record AuthConfig : Type 0 where
  pub password : Bytes

abbrev pub auth_response_size : ℕ
auth_response_size = 32

unfoldable pub password_configured : AuthConfig → Bool
password_configured cfg = elim cfg.password [ [] ↦ false | c ∷ cs ↦ true ]

abbrev pub max_password_file_bytes : ℕ
max_password_file_bytes = 4096

-- The messages of `from_password_file`.
pub data FileError : Type 0 where
  cannot_open too_large read_error is_empty : FileError

pub data FileResult : Type 0 where
  file_password : Bytes → FileResult
  file_failed : FileError → FileResult

-- `while ((n = fread(...)) > 0)` over what the reads return; an empty read is the end.
unfoldable pub read_file : List Bytes → Bytes → Option Bytes
read_file [] got = some got
read_file (chunk ∷ chunks) got =
    let more = read_file chunks (got ++ chunk) in
    if length chunk == 0
    then some got
    else if ltb max_password_file_bytes (length got + length chunk)
    then none
    else more

-- `data` without its last byte, if that is `c`.
unfoldable pub drop_last : ℕ → Bytes → Option Bytes
drop_last c [] = none
drop_last c (x ∷ xs) = elim xs [
  | [] ↦ if x == c then some [] else none
  | y ∷ ys ↦ elim (drop_last c xs) [ none ↦ none | some rest ↦ some (x ∷ rest) ]
]

unfoldable pub strip_newline : Bytes → Bytes
strip_newline bytes = elim (drop_last b'\n' bytes) [
  | none ↦ bytes
  | some rest ↦ elim (drop_last b'\r' rest) [ none ↦ rest | some shorter ↦ shorter ]
]

-- `chunks` is none where the file does not open; `read_err` is `ferror` behind the reads.
unfoldable pub from_password_file : Option (List Bytes) → Bool → FileResult
from_password_file none read_err = file_failed cannot_open
from_password_file (some chunks) read_err = elim (read_file chunks []) [
  | none ↦ file_failed too_large
  | some bytes ↦ if read_err then file_failed read_error else elim (strip_newline bytes) [
    | [] ↦ file_failed is_empty
    | c ∷ cs ↦ file_password (c ∷ cs)
  ]
]

-- `HMAC(EVP_sha256(), key, message)`: none where it fails.
abbrev pub Hmac : Type 0
Hmac = Bytes → Bytes → Option Bytes

unfoldable pub hmac_sha256 : Hmac → Bytes → Bytes → Option Bytes
hmac_sha256 hmac key message = elim (hmac key message) [
  | none ↦ none
  | some out ↦ if length out == auth_response_size then some out else none
]

unfoldable pub verify_auth_response : Hmac → AuthConfig → Bytes → Bytes → Bool
unfolding hmac_sha256
verify_auth_response hmac cfg nonce response =
    if not (password_configured cfg)
    then false
    else if not (length response == auth_response_size)
    then false
    else elim (hmac_sha256 hmac cfg.password nonce) [
      | none ↦ false
      | some expected ↦ bytes_eq expected response
    ]
