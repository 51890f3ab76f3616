-- ===== src/Database.antt =====
-- CardBluffServer/database.cpp: the ratings in the table of clients, by SQL texts.
pub mod Decimal
pub mod Clients
use card_bluff.Prelude.{
  ℕ, zero, suc, ◌+◌, ◌*◌, ◌-◌, Bool, false, List, [], ◌∷◌, ◌++◌, Option, none, some, ◌==◌, ◌&&◌,
  ◌||◌, leb, ltb, if◌then◌else◌, list_eq, length, codes, Run, ok, fault, ◌>>=◌,
}
use card_bluff.Prelude.Int.{ℤ, pos, negsuc}
use card_bluff.Text.{ll_to_string}
use card_bluff.Env.{Env, Row}

-- `sprintf` into `char cmd[256]`: a text of 256 bytes or more is written past the end.
unfoldable pub sprintf_cmd : List ℕ → Run (List ℕ)
sprintf_cmd text = if ltb (length text) 256 then ok text else fault

-- `sscanf(text, "%I64d", ...)`: white space, a sign, then digits up to the first other character.
unfoldable pub scan_digits : ℕ → List ℕ → ℕ
scan_digits acc [] = acc
scan_digits acc (c ∷ s) =
    let rest = scan_digits (acc * 10 + (c - b'0')) s in
    if leb b'0' c && leb c b'9' then rest else acc

abbrev pub starts_with_digit : List ℕ → Bool
starts_with_digit [] = false
starts_with_digit (c ∷ s) = leb b'0' c && leb c b'9'

abbrev pub negative : ℕ → ℤ
negative zero = pos 0
negative (suc n) = negsuc n

abbrev pub scan_magnitude : (ℕ → ℤ) → List ℕ → Option ℤ
unfolding scan_digits
scan_magnitude sign s = if starts_with_digit s then some (sign (scan_digits 0 s)) else none

unfoldable pub skip_spaces : List ℕ → List ℕ
skip_spaces [] = []
skip_spaces (c ∷ s) =
    let rest = skip_spaces s in if c == b' ' || (leb 9 c && leb c 13) then rest else c ∷ s

abbrev pub scan_signed : List ℕ → Option ℤ
unfolding scan_digits
scan_signed [] = none
scan_signed (c ∷ s) =
    if c == b'-'
    then scan_magnitude negative s
    else if c == b'+'
    then scan_magnitude pos s
    else scan_magnitude pos (c ∷ s)

unfoldable pub scan_ll : List ℕ → Option ℤ
unfolding scan_digits skip_spaces
scan_ll s = scan_signed (skip_spaces s)

-- `SQLITE_ABORT`, the result of `sqlite3_exec` when its callback returns non-zero.
abbrev pub sqlite_abort : ℕ
sqlite_abort = 4

-- A column of a row, where the callback tests its name and that its value is not NULL.
abbrev pub value_of : List ℕ → Row → Option (List ℕ)
unfolding list_eq
value_of column [] = none
value_of column ((none, value) ∷ []) = none
value_of column ((some name, none) ∷ []) = none
value_of column ((some name, some value) ∷ []) = if list_eq name column then some value else none
value_of column (a ∷ b ∷ row) = none

-- `sscanf` into a variable: without a number the variable is as before.
abbrev pub scan_into : Option ℤ → List ℕ → Option ℤ
unfolding scan_ll
scan_into old text = elim (scan_ll text) [ some r ↦ some r | none ↦ old ]

-- `db_get_rating_cb`, on the rating read so far; `none` is its return of -1.
unfoldable pub db_get_rating_cb : Option ℤ → Row → Run (Option (Option ℤ))
unfolding list_eq scan_ll
db_get_rating_cb rating row = elim (value_of (codes "rating") row) [
  | none ↦ ok none
  | some text ↦ ok (some (scan_into rating text))
]

-- The calls of a callback on what it has written so far; a failing one ends them.
unfoldable pub call_back {ℓ} :
    {A : Type ℓ} → (A → Row → Run (Option A)) → A → List Row → ℕ → Run (A × ℕ)
call_back callback a [] code = ok (a, code)
call_back callback a (row ∷ rows) code = callback a row >>= λ r. elim r [
  | none ↦ ok (a, sqlite_abort)
  | some b ↦ call_back callback b rows code
]

module _ (env : Env) where
  open env use {Db, exec}

  -- The result code, and the rating if one was written.
  unfoldable pub db_get_rating : Db → ℤ → Run (Db × ℕ × Option ℤ)
  unfolding sprintf_cmd call_back db_get_rating_cb ll_to_string
  db_get_rating db id = do
    cmd ←
        sprintf_cmd
          (codes "SELECT rating FROM clients WHERE id=" ++ ll_to_string id false ++ codes ";")
    let r = exec db cmd
    (rating, code) ← call_back db_get_rating_cb none r.rows r.code
    ok (r.db, code, rating)

  unfoldable pub db_set_rating : Db → ℤ → ℤ → Run (Db × ℕ)
  unfolding sprintf_cmd ll_to_string
  db_set_rating db id rating = do
    cmd ← sprintf_cmd (
        codes "UPDATE clients SET rating="
        ++ ll_to_string rating false
        ++ codes " WHERE id="
        ++ ll_to_string id false
        ++ codes ";")
    let r = exec db cmd
    ok (r.db, r.code)
