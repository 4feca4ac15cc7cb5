-- ===== src/Auth/Tests.antt =====
-- A password file to read.
use meshcom_loraham_bridge.Prelude.{
  false, some, List, [], ◌∷◌, ◌++◌, Bytes, ◌≡◌, refl, inr, arith, codes,
}
use meshcom_loraham_bridge.Auth.{
  read_file, strip_newline, drop_last, from_password_file, file_password, file_failed, is_empty,
}
use meshcom_loraham_bridge.Auth.PasswordFile.{from_password_file_lem}

abbrev reads : List Bytes
reads = codes "se" ∷ codes "cret" ∷ (b'\r' ∷ b'\n' ∷ []) ∷ []

from_password_file_lem_example :
    from_password_file (some reads) false ≡ file_password (codes "secre" ++ b't' ∷ [])
from_password_file_lem_example =
    from_password_file_lem reads (codes "secre") b't' (b'\r' ∷ b'\n' ∷ [])
      (omega arith, (omega arith, (omega arith, tt))) refl (omega arith) (omega arith) (omega arith)
      (inr (inr refl))

only_newline : from_password_file (some ((b'\n' ∷ []) ∷ [])) false ≡ file_failed is_empty
unfolding from_password_file read_file strip_newline drop_last
only_newline = refl
