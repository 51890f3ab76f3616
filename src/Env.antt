-- ===== src/Env.antt =====
-- What the server takes from outside its sources: SQLite, the C++ library's `double` arithmetic and
-- `towlower`, and the numbers that `mt19937` gives. Nothing is assumed of them here; a theorem that
-- needs a fact about them has it among its hypotheses.
use card_bluff.Prelude.{ℕ, List, Option}
use card_bluff.Prelude.Int.{ℤ}

-- One result row of a query: for each column its name and its value, either of which may be NULL.
abbrev pub Row : Type 0
Row = List (Option (List ℕ) × Option (List ℕ))

-- What `sqlite3_exec` does to the database: the new contents, the rows it calls back with, and the
-- result code.
pub record Executed (Db : Type 0) : Type 0 where
  pub db : Db
  pub rows : List Row
  pub code : ℕ

pub record Env : Type 1 where
  pub Db : Type 0
  pub exec : Db → List ℕ → Executed Db
  -- `double`: the conversions from and to `long long`, and the operations used.
  pub Double : Type 0
  pub of_ll : ℤ → Double
  pub to_ll : Double → ℤ
  pub half : Double
  pub add : Double → Double → Double
  pub mul : Double → Double → Double
  pub div : Double → Double → Double
  pub pow : Double → Double → Double
  pub towlower : ℕ → ℕ
  -- The n-th number of the generator `gnr`.
  pub gnr : ℕ → ℕ

-- The UTF-8 converter, SHA-256 as hexadecimal text, and the generator of the salts. `from_bytes` gives
-- `none` where the library throws `range_error`.
pub record Crypto : Type 0 where
  pub to_bytes : List ℕ → List ℕ
  pub from_bytes : List ℕ → Option (List ℕ)
  pub sha256 : List ℕ → List ℕ
  -- The n-th number of a generator with a seed.
  pub rand64 : ℕ → ℕ → ℕ
