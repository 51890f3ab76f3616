-- ===== src/Database/Clients.antt =====
-- CardBluffServer/database.cpp: the clients of the server in the database, by nickname and by id, and
-- the list of the best players. The texts are put between quotes as they are.
use card_bluff.Prelude.{
  ℕ, Bool, true, false, List, [], ◌∷◌, ◌++◌, Option, none, some, ◌&&◌, if◌then◌else◌, list_eq,
  codes, Run, ok, fault, ◌>>=◌,
}
use card_bluff.Prelude.Int.{ℤ, pos}
use card_bluff.Text.{ll_to_string}
use card_bluff.Env.{Env, Row, Crypto}
use card_bluff.Database.{sprintf_cmd, call_back, scan_ll, value_of, scan_into}

abbrev pub default_rating : ℤ
default_rating = pos 1200

-- What `db_get_id_by_nickname` writes through its pointers: `exists`, and the id, if any was written.
abbrev pub Found : Type 0
Found = Bool × Option ℤ

unfoldable pub db_get_id_by_nickname_cb : Found → Row → Run (Option Found)
unfolding list_eq scan_ll
db_get_id_by_nickname_cb found row = elim (value_of (codes "id") row) [
  | none ↦ ok none
  | some text ↦ ok (some (true, scan_into found.1 text))
]

module _ (env : Env) (crypto : Crypto) where
  open env use {Db, exec}
  open crypto use {to_bytes, from_bytes}

  -- An exception of the converter is not caught here.
  unfoldable pub converted : List ℕ → Run (List ℕ)
  converted text = elim (from_bytes text) [ none ↦ fault | some str ↦ ok str ]

  unfoldable pub db_add_client : Db → List ℕ → List ℕ → Run (Db × ℕ)
  unfolding sprintf_cmd ll_to_string
  db_add_client db nickname password = do
    cmd ← sprintf_cmd (
        codes "INSERT INTO clients (nickname, password, rating) VALUES ('"
        ++ to_bytes nickname
        ++ codes "', '"
        ++ to_bytes password
        ++ codes "', "
        ++ ll_to_string default_rating false
        ++ codes ");")
    let r = exec db cmd
    ok (r.db, r.code)

  -- The id that the caller's variable held before is kept where none is written.
  unfoldable pub db_get_id_by_nickname : Db → List ℕ → Option ℤ → Run (Db × ℕ × Found)
  unfolding sprintf_cmd call_back db_get_id_by_nickname_cb
  db_get_id_by_nickname db nickname id = do
    cmd ←
        sprintf_cmd
          (codes "SELECT id FROM clients WHERE nickname='" ++ to_bytes nickname ++ codes "';")
    let r = exec db cmd
    (found, code) ← call_back db_get_id_by_nickname_cb (false, id) r.rows r.code
    ok (r.db, code, found)

  unfoldable pub db_get_password_cb : List ℕ → Row → Run (Option (List ℕ))
  unfolding list_eq converted
  db_get_password_cb password row = elim (value_of (codes "password") row) [
    | none ↦ ok none
    | some text ↦ converted text >>= λ str. ok (some str)
  ]

  -- The password is empty where no row has given one.
  unfoldable pub db_get_password : Db → ℤ → Run (Db × ℕ × List ℕ)
  unfolding sprintf_cmd call_back db_get_password_cb ll_to_string
  db_get_password db id = do
    cmd ←
        sprintf_cmd
          (codes "SELECT password FROM clients WHERE id=" ++ ll_to_string id false ++ codes ";")
    let r = exec db cmd
    (password, code) ← call_back db_get_password_cb [] r.rows r.code
    ok (r.db, code, password)

  unfoldable pub db_set_password : Db → ℤ → List ℕ → Run (Db × ℕ)
  unfolding sprintf_cmd ll_to_string
  db_set_password db id password = do
    cmd ← sprintf_cmd (
        codes "UPDATE clients SET password='"
        ++ to_bytes password
        ++ codes "' WHERE id="
        ++ ll_to_string id false
        ++ codes ";")
    let r = exec db cmd
    ok (r.db, r.code)

  -- The values of a line: `sscanf` of NULL, and a string made of NULL, are undefined.
  unfoldable pub top_line :
      List (List ℕ × ℤ) → Option (List ℕ) → Option (List ℕ) → Run (Option (List (List ℕ × ℤ)))
  unfolding scan_ll converted
  top_line top nickname none = fault
  top_line top nickname (some text) = elim (scan_ll text) [
    | none ↦ ok none
    | some rating ↦ elim nickname [
      | none ↦ fault
      | some name ↦ converted name >>= λ str. ok (some (top ++ (str, rating) ∷ []))
    ]
  ]

  unfoldable pub db_get_top_cb : List (List ℕ × ℤ) → Row → Run (Option (List (List ℕ × ℤ)))
  unfolding list_eq top_line
  db_get_top_cb top ((some name₀, value₀) ∷ (some name₁, value₁) ∷ []) =
      if list_eq name₀ (codes "nickname") && list_eq name₁ (codes "rating")
      then top_line top value₀ value₁
      else ok none
  db_get_top_cb top _ = ok none

  unfoldable pub db_get_top : Db → ℕ → Run (Db × ℕ × List (List ℕ × ℤ))
  unfolding sprintf_cmd call_back db_get_top_cb ll_to_string
  db_get_top db n = do
    cmd ← sprintf_cmd (
        codes "SELECT nickname, rating FROM clients ORDER BY rating DESC LIMIT "
        ++ ll_to_string (pos n) false
        ++ codes ";")
    let r = exec db cmd
    (top, code) ← call_back db_get_top_cb [] r.rows r.code
    ok (r.db, code, top)
