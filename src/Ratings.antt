-- ===== src/Ratings.antt =====
-- `update_ratings` of CardBluffServer/ratings.cpp: the Elo update after a game.
pub mod Balance
use card_bluff.Prelude.{
  ℕ, ◌^◌, Bool, ltb, Option, none, some, ◌==◌, if◌then◌else◌, Run, ok, fault, ◌>>=◌,
}
use card_bluff.Prelude.Int.{ℤ, pos, negsuc, ◌+ℤ◌, ◌-ℤ◌}
use card_bluff.Env.{Env}
use card_bluff.Database.{db_get_rating, db_set_rating}

-- The three values that a successful call writes through its pointers.
pub record Update : Type 0 where
  pub winner_rating : ℤ
  pub loser_rating : ℤ
  pub delta : ℤ

-- A rating that no row has written is read uninitialised.
abbrev pub initialised : Option ℤ → Run ℤ
initialised none = fault
initialised (some r) = ok r

-- A `long long` has 64 bits; a value that it cannot hold is undefined behaviour, of a sum and of the
-- conversion of a `double` alike.
abbrev pub fits : ℤ → Bool
fits (pos n) = ltb n (2 ^ 63)
fits (negsuc n) = ltb n (2 ^ 63)

unfoldable pub long_long : ℤ → Run ℤ
long_long a = if fits a then ok a else fault

module _ (env : Env) where
  open env use {Db, Double, of_ll, to_ll, half, add, mul, div, pow}

  -- `RATING_K * loser_E + 0.5`, cast to `long long`.
  unfoldable pub rating_delta : ℤ → ℤ → Run ℤ
  unfolding long_long
  rating_delta winner_r loser_r =
      let winner_pow = pow (of_ll (pos 10)) (div (of_ll winner_r) (of_ll (pos 400))) in
      let loser_pow = pow (of_ll (pos 10)) (div (of_ll loser_r) (of_ll (pos 400))) in
      let loser_e = div loser_pow (add winner_pow loser_pow) in
      long_long (to_ll (add (mul (of_ll (pos 32)) loser_e) half))

  -- The two updates; `some` is the return of 0, with what was written, `none` a result code of SQLite.
  unfoldable pub write_ratings : Db → ℤ → ℤ → Update → Run (Db × Option Update)
  write_ratings db winner_id loser_id u = do
    (db₁, code₁) ← db_set_rating env db winner_id u.winner_rating
    if code₁ == 0
        then (do
          (db₂, code₂) ← db_set_rating env db₁ loser_id u.loser_rating
          if code₂ == 0 then ok (db₂, some u) else ok (db₂, none))
        else ok (db₁, none)

  -- The new ratings: `winner_r += delta` and `loser_r -= delta`.
  unfoldable pub new_ratings : ℤ → ℤ → Run Update
  unfolding rating_delta long_long
  new_ratings winner_r loser_r = do
    delta ← rating_delta winner_r loser_r
    winner' ← long_long (winner_r +ℤ delta)
    loser' ← long_long (loser_r -ℤ delta)
    ok (record { winner_rating = winner'; loser_rating = loser'; delta = delta })

  unfoldable pub update_ratings : Db → ℤ → ℤ → Run (Db × Option Update)
  unfolding write_ratings new_ratings
  update_ratings db winner_id loser_id = do
    (db₁, code₁, winner_old) ← db_get_rating env db winner_id
    if code₁ == 0
        then (do
          (db₂, code₂, loser_old) ← db_get_rating env db₁ loser_id
          if code₂ == 0
              then (do
                winner_r ← initialised winner_old
                loser_r ← initialised loser_old
                u ← new_ratings winner_r loser_r
                write_ratings db₂ winner_id loser_id u)
              else ok (db₂, none))
        else ok (db₁, none)
