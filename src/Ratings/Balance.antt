-- ===== src/Ratings/Balance.antt =====
-- What `update_ratings` of CardBluffServer/ratings.cpp leaves of the sum of two ratings.
use card_bluff.Prelude.{
  ℕ, ◌≡◌, subst, inl, inr, true, Option, none, some, ◌==◌, ==→eq, ok, fault, After, After-ok,
  Run-cases, Bool-cases,
}
use card_bluff.Prelude.Int.{ℤ, ◌+ℤ◌, ◌-ℤ◌, int_laws}
use card_bluff.Env.{Env}
use card_bluff.Database.{db_get_rating, db_set_rating}
use card_bluff.Ratings.{
  Update, update_ratings, write_ratings, rating_delta, new_ratings, long_long, fits, initialised,
}

sum_kept : (a b d : ℤ) → (a +ℤ d) +ℤ (b -ℤ d) ≡ a +ℤ b
sum_kept a b d = omega int_laws

long_long-fits : (a b : ℤ) → long_long a ≡ ok b → (b ≡ a) × (fits b ≡ true)
unfolding long_long
long_long-fits a b e = elim (Bool-cases (fits a)) [
  | inl good ↦
      let value : ok a ≡ ok b = rw (long_long, good) at e in
      let same : b ≡ a = cc in (same, rw same good)
  | inr bad ↦ let value : fault ≡ ok b = rw (long_long, bad) at e in absurd (cc)
]

-- The new ratings are numbers of 64 bits.
abbrev pub Fit : Update → Type 0
Fit u = (fits u.winner_rating ≡ true) × (fits u.loser_rating ≡ true)

module _ (env : Env) where
  open env use {Db}

  -- The two ratings as they were read, and as they were written, one after the other.
  abbrev pub Exchange : Db → ℤ → ℤ → Db → Update → Type 0
  Exchange db winner loser db' u =
      (winner_r : ℤ) × (loser_r : ℤ) × (db₁ : Db) × (db₂ : Db) × (db₃ : Db) × (db_get_rating env db
          winner
        ≡ ok (db₁, 0, some winner_r))
      × (db_get_rating env db₁ loser ≡ ok (db₂, 0, some loser_r))
      × (db_set_rating env db₂ winner u.winner_rating ≡ ok (db₃, 0))
      × (db_set_rating env db₃ loser u.loser_rating ≡ ok (db', 0))
      × (u.winner_rating ≡ winner_r +ℤ u.delta)
      × (u.winner_rating +ℤ u.loser_rating ≡ winner_r +ℤ loser_r)
      × Fit u

  abbrev Wrote : (Db → Update → Type 0) → Db × Option Update → Type 0
  Wrote Q (db', none) = Unit
  Wrote Q (db', some u) = Q db' u

  -- The ratings that were read are initialised.
  initialised-some : (o : Option ℤ) (r : ℤ) → initialised o ≡ ok r → o ≡ some r
  initialised-some none r h = cc
  initialised-some (some x) r h = cc

  read :
      (db : Db) (id : ℤ) (db₁ : Db) (code : ℕ) (old : Option ℤ) (r : ℤ)
      → db_get_rating env db id ≡ ok (db₁, code, old)
      → (code == 0) ≡ true
      → initialised old ≡ ok r
      → db_get_rating env db id ≡ ok (db₁, 0, some r)
  read db id db₁ code old r e fine there =
      let zero_code = ==→eq code 0 fine in let value = initialised-some old r there in cc

  new_ratings-parts :
      (winner_r loser_r : ℤ)
      → After
          (λ (u : Update).
            (u.winner_rating ≡ winner_r +ℤ u.delta) × (u.loser_rating ≡ loser_r -ℤ u.delta) × Fit u)
          (new_ratings env winner_r loser_r)
  unfolding new_ratings
  new_ratings-parts winner_r loser_r = elim (Run-cases (rating_delta env winner_r loser_r)) [
    | inl e ↦ rw e tt
    | inr (delta, e) ↦ elim (Run-cases (long_long (winner_r +ℤ delta))) [
      | inl e₁ ↦ rw (e, e₁) tt
      | inr (won, e₁) ↦ elim (Run-cases (long_long (loser_r -ℤ delta))) [
        | inl e₂ ↦ rw (e, e₁, e₂) tt
        | inr (lost, e₂) ↦
            let up = long_long-fits (winner_r +ℤ delta) won e₁ in
            let down = long_long-fits (loser_r -ℤ delta) lost e₂ in
            rw (e, e₁, e₂) (up.0, down.0, (up.1, down.1))
      ]
    ]
  ]

  exchanged :
      (Q : Db → Update → Type 0) (db : Db) (winner loser : ℤ) (u : Update)
      → ((db₁ db₂ : Db)
          → db_set_rating env db winner u.winner_rating ≡ ok (db₁, 0)
          → db_set_rating env db₁ loser u.loser_rating ≡ ok (db₂, 0)
          → Q db₂ u)
      → After (Wrote Q) (write_ratings env db winner loser u)
  unfolding write_ratings
  exchanged Q db winner loser u q = elim (Run-cases (db_set_rating env db winner u.winner_rating)) [
    | inl e₁ ↦ rw (write_ratings, e₁) tt
    | inr ((db₁, code₁), e₁) ↦ elim (Bool-cases (code₁ == 0)) [
      | inr bad ↦ rw (write_ratings, e₁, bad) tt
      | inl fine₁ ↦ elim (Run-cases (db_set_rating env db₁ loser u.loser_rating)) [
        | inl e₂ ↦ rw (write_ratings, e₁, fine₁, e₂) tt
        | inr ((db₂, code₂), e₂) ↦ elim (Bool-cases (code₂ == 0)) [
          | inr bad ↦ rw (write_ratings, e₁, fine₁, e₂, bad) tt
          | inl fine₂ ↦
              let first =
                subst (λ n. db_set_rating env db winner u.winner_rating ≡ ok (db₁, n))
                  (==→eq code₁ 0 fine₁) e₁ in
              let second =
                subst (λ n. db_set_rating env db₁ loser u.loser_rating ≡ ok (db₂, n))
                  (==→eq code₂ 0 fine₂) e₂ in
              rw (write_ratings, e₁, fine₁, e₂, fine₂) (q db₁ db₂ first second)
        ]
      ]
    ]
  ]

  written :
      (Q : Db → Update → Type 0) (db : Db) (winner loser : ℤ)
      → ((db' : Db) (u : Update) → Exchange db winner loser db' u → Q db' u)
      → After (Wrote Q) (update_ratings env db winner loser)
  unfolding update_ratings
  written Q db winner loser q = elim (Run-cases (db_get_rating env db winner)) [
    | inl e₁ ↦ rw (update_ratings, e₁) tt
    | inr ((db₁, code₁, winner_old), e₁) ↦ elim (Bool-cases (code₁ == 0)) [
      | inr bad ↦ rw (update_ratings, e₁, bad) tt
      | inl fine₁ ↦ elim (Run-cases (db_get_rating env db₁ loser)) [
        | inl e₂ ↦ rw (update_ratings, e₁, fine₁, e₂) tt
        | inr ((db₂, code₂, loser_old), e₂) ↦ elim (Bool-cases (code₂ == 0)) [
          | inr bad ↦ rw (update_ratings, e₁, fine₁, e₂, bad) tt
          | inl fine₂ ↦ elim (Run-cases (initialised winner_old)) [
            | inl e₃ ↦ rw (update_ratings, e₁, fine₁, e₂, fine₂, e₃) tt
            | inr (winner_r, e₃) ↦ elim (Run-cases (initialised loser_old)) [
              | inl e₄ ↦ rw (update_ratings, e₁, fine₁, e₂, fine₂, e₃, e₄) tt
              | inr (loser_r, e₄) ↦
                  let first = read db winner db₁ code₁ winner_old winner_r e₁ fine₁ e₃ in
                  let second = read db₁ loser db₂ code₂ loser_old loser_r e₂ fine₂ e₄ in
                  elim (Run-cases (new_ratings env winner_r loser_r)) [
                    | inl e₅ ↦ rw (update_ratings, e₁, fine₁, e₂, fine₂, e₃, e₄, e₅) tt
                    | inr (u, e₅) ↦
                        let parts = After-ok _ _ u e₅ (new_ratings-parts winner_r loser_r) in
                        rw (update_ratings, e₁, fine₁, e₂, fine₂, e₃, e₄, e₅)
                          (exchanged Q db₂ winner loser u (λ db₃ db₄ set₁ set₂. q db₄ u (
                            winner_r,
                            loser_r,
                            db₁,
                            db₂,
                            db₃,
                            first,
                            second,
                            set₁,
                            set₂,
                            parts.0,
                            rw (parts.0, parts.1) (sum_kept winner_r loser_r u.delta),
                            parts.2,
                          )))
                  ]
            ]
          ]
        ]
      ]
    ]
  ]

  -- When update_ratings succeeds, both ratings were read from the database and both new ones written, the
  -- winner's before the loser's, the winner's is the old one and the difference, the sum of the new
  -- ratings is the sum of the old ones, and both are numbers of 64 bits, whatever the arithmetic of double
  -- is: where a sum overflows the call does not return.
  pub update_ratings-Exchange :
      (db : Db) (winner loser : ℤ) (db' : Db) (u : Update)
      → update_ratings env db winner loser ≡ ok (db', some u)
      → Exchange db winner loser db' u
  update_ratings-Exchange db winner loser db' u e =
      After-ok (Wrote (Exchange db winner loser)) _ (db', some u) e
        (written (Exchange db winner loser) db winner loser (λ db'' v x. x))
