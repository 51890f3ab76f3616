-- ===== src/Combinations/Bets/Rows.antt =====
-- Five in a row in a list of ranks in decreasing order: the search of `find_best_straight`, and that
-- of `find_best_straight_flush` in one suit, in CardBluffServer/combinations.cpp.
mod Places
use mathlib.Core.List.{append_assoc}
use card_bluff.Prelude.{
  ℕ, zero, suc, ◌+◌, ◌-◌, ◌≤◌, ◌<◌, ◌≡◌, refl, ◌∙◌, sym, Bool, true, false, List, [], ◌∷◌, ◌++◌,
  Option, none, some, ◌==◌, leb, ◌&&◌, if◌then◌else◌, length, length-append, down, ok, at, arith,
  Bool-cases, inl, inr, lt-cases, eq-cases, ne→==,
}
use card_bluff.Combinations.Find.{straight_from, advance}
use card_bluff.Combinations.Bets.{consecutive}
use card_bluff.Combinations.Bets.Rows.Places.{consecutive-snoc, Nth-down, consecutive-nth}

-- The highest top, below n, of five in a row.
unfoldable pub top_run : (ℕ → Bool) → ℕ → Option ℕ
top_run p zero = none
top_run p (suc n) = if leb 4 n && consecutive p (n - 4) 5 then some n else top_run p n

at-after : (pre v : List ℕ) (k : ℕ) → at (pre ++ v) (length pre + k) ≡ at v k
at-after [] v k = let e : 0 + k ≡ k = omega arith in rw e
at-after (x ∷ pre) v k =
    let e : suc (length pre) + k ≡ suc (length pre + k) = omega arith in rw e (at-after pre v k)

at-lt {ℓ} : {A : Type ℓ} (v : List A) (k : ℕ) → k < length v → (x : A) × (at v k ≡ ok x)
at-lt [] k h = elim h [ ]
at-lt (x ∷ v) zero h = (x, refl)
at-lt (x ∷ v) (suc k) h = at-lt v k (omega arith)

-- Whether the element four places on is four lower.
ends_run :
    (p : ℕ → Bool) (n e : ℕ)
    → p n ≡ true
    → at (down p n) 3 ≡ ok e
    → (n == e + 4) ≡ (leb 4 n && consecutive p (n - 4) 5)
ends_run p n e take here = elim (eq-cases n (e + 4)) [
  | inl top ↦
      let run = (Nth-down p n 3 e here).2 (omega arith) in
      let low : n - 4 ≡ e = omega arith in
      rw (low, consecutive-snoc p e 4, run, ← top, take) (ground arith)
  | inr other ↦ elim (Bool-cases (leb 4 n && consecutive p (n - 4) 5)) [
    | inr no_run ↦ rw (no_run, ne→== n (e + 4) other)
    | inl run ↦
        let four : consecutive p (n - 4) 4 ≡ true = ground (arith, consecutive-snoc p (n - 4) 4) in
        let same = consecutive-nth p 3 n (n - 4) (ground arith) four in
        absurd (other (ground arith))
  ]
]

lt-of-at {ℓ} : {A : Type ℓ} (v : List A) (k : ℕ) {x : A} → at v k ≡ ok x → k < length v
lt-of-at [] k h = cc
lt-of-at (x ∷ v) zero h = omega arith
lt-of-at (x ∷ v) (suc k) h = omega (arith, lt-of-at v k h)

-- A run ends at a rank that is there.
run-last : (p : ℕ → Bool) (n : ℕ) → (leb 4 n && consecutive p (n - 4) 5) ≡ true → p n ≡ true
run-last p n h =
    let e : (n - 4) + 4 ≡ n = ground arith in
    let last : p ((n - 4) + 4) ≡ true = ground (arith, consecutive-snoc p (n - 4) 4) in rw e at last

length-run :
    (p : ℕ → Bool) (n : ℕ)
    → (leb 4 n && consecutive p (n - 4) 5) ≡ true
    → 5 ≤ length (down p (suc n))
length-run p n h =
    lt-of-at (down p (suc n)) 4 (consecutive-nth p 4 (suc n) (n - 4) (ground arith) (ground arith))

top_run-short : (p : ℕ → Bool) (n : ℕ) → length (down p n) < 5 → top_run p n ≡ none
unfolding top_run
top_run-short p zero h = refl
top_run-short p (suc n) h = elim (Bool-cases (leb 4 n && consecutive p (n - 4) 5)) [
  | inl run ↦ absurd (omega (arith, length-run p n run))
  | inr no_run ↦ rw no_run (top_run-short p n (unfold down in ground arith))
]

down-take : (p : ℕ → Bool) (n : ℕ) → p n ≡ true → down p (suc n) ≡ n ∷ down p n
unfolding down
down-take p n h = rw h

down-skip : (p : ℕ → Bool) (n : ℕ) → p n ≡ false → down p (suc n) ≡ down p n
unfolding down
down-skip p n h = rw h

top_run-skip : (p : ℕ → Bool) (n : ℕ) → p n ≡ false → top_run p (suc n) ≡ top_run p n
unfolding top_run
top_run-skip p n skip = elim (Bool-cases (leb 4 n && consecutive p (n - 4) 5)) [
  | inl run ↦ let there = run-last p n run in cc
  | inr no_run ↦ rw no_run
]

top_run-here :
    (p : ℕ → Bool) (n : ℕ)
    → (leb 4 n && consecutive p (n - 4) 5) ≡ true
    → top_run p (suc n) ≡ some n
unfolding top_run
top_run-here p n run = rw run

top_run-past :
    (p : ℕ → Bool) (n : ℕ)
    → (leb 4 n && consecutive p (n - 4) 5) ≡ false
    → top_run p (suc n) ≡ top_run p n
unfolding top_run
top_run-past p n run = rw run

-- What a loop that looks for five in a row finds at a rank with four others after it.
module _ (p : ℕ → Bool) (n : ℕ) (pre : List ℕ) (take : p n ≡ true)
    (long : 4 ≤ length (down p n)) where
  abbrev row : List ℕ
  row = pre ++ down p (suc n)

  row_here : at row (length pre + 4 - 4) ≡ ok n
  row_here =
      let back : length pre + 4 - 4 ≡ length pre + 0 = omega arith in
      rw (down-take p n take, back) (at-after pre (n ∷ down p n) 0)

  row_ahead :
      (e : ℕ) × (at row (length pre + 4) ≡ ok e)
      × ((n == e + 4) ≡ (leb 4 n && consecutive p (n - 4) 5))
  row_ahead =
      let (e, here) = at-lt (down p n) 3 long in
      (e, rw (down-take p n take, at-after pre (n ∷ down p n) 4) here, ends_run p n e take here)

  row_rounds : length (down p (suc n)) - 4 ≡ suc (length (down p n) - 4)
  row_rounds = rw (down-take p n take) (omega arith)

  row_next : row ≡ (pre ++ n ∷ []) ++ down p n
  row_next = rw (down-take p n take) (sym (append_assoc pre (n ∷ []) (down p n)))

  row_index : suc (length pre + 4) ≡ length (pre ++ n ∷ []) + 4
  row_index = omega (arith, length-append pre (n ∷ []))

-- The loop of `find_best_straight` from the place behind `pre`, where the ranks below n are left.
straight_from-step :
    (v : List ℕ) (n x a b : ℕ)
    → at v (x - 4) ≡ ok a
    → at v x ≡ ok b
    → straight_from v (suc n) x ≡ (if a == b + 4 then ok (some a) else straight_from v n (suc x))
unfolding straight_from
straight_from-step v n x a b ha hb = rw (ha, hb)

advance-step :
    (v : List ℕ) (n x a b : ℕ)
    → at v (x - 4) ≡ ok a
    → at v x ≡ ok b
    → advance (suc n) v x ≡ (if a == b + 4 then ok x else advance n v (suc x))
unfolding advance
advance-step v n x a b ha hb = rw (ha, hb)

straight_from-take :
    (p : ℕ → Bool) (n : ℕ) (pre : List ℕ) (take : p n ≡ true)
    → ((pre : List ℕ)
        → straight_from (pre ++ down p n) (length (down p n) - 4) (length pre + 4)
          ≡ ok (top_run p n))
    → straight_from (pre ++ down p (suc n)) (length (down p (suc n)) - 4) (length pre + 4)
      ≡ ok (top_run p (suc n))
straight_from-take p n pre take ih = elim (lt-cases (length (down p n)) 4) [
  | inl short ↦
      let none_left : length (down p (suc n)) - 4 ≡ 0 = rw (down-take p n take) (omega arith) in
      let too_few : length (down p (suc n)) < 5 = rw (down-take p n take) (omega arith) in
      rw (none_left, top_run-short p (suc n) too_few) (unfold straight_from in refl)
  | inr long ↦
      let (e, ahead, same) = row_ahead p n pre take long in
      rw
        (
          row_rounds p n pre take long,
          straight_from-step _ _ _ n e (row_here p n pre take long) ahead,
          same,
          row_next p n pre take long,
          row_index p n pre take long,
          ih (pre ++ n ∷ []),
        )
        (unfold top_run in ground arith)
]

pub straight_from-behind :
    (p : ℕ → Bool) (n : ℕ) (pre : List ℕ)
    → straight_from (pre ++ down p n) (length (down p n) - 4) (length pre + 4) ≡ ok (top_run p n)
straight_from-behind p zero pre = unfold straight_from down top_run in refl
straight_from-behind p (suc n) pre = elim (Bool-cases (p n)) [
  | inr skip ↦ rw (down-skip p n skip, top_run-skip p n skip) (straight_from-behind p n pre)
  | inl take ↦ straight_from-take p n pre take (straight_from-behind p n)
]

-- The `while` loop of `find_best_straight_flush` stops at the top of the highest run, or at the end.
abbrev pub StopsAt : List ℕ → ℕ → Option ℕ → ℕ → Type 0
StopsAt line end (some t) j = (4 ≤ j) × (j < length line) × (at line (j - 4) ≡ ok t)
StopsAt line end none j = j ≡ end

-- The end of the loop where the row has at least four ranks from the start on, or the start.
abbrev pub stop : List ℕ → List ℕ → ℕ
stop pre rest = length pre + 4 + (length rest - 4)

abbrev pub Stops : (ℕ → Bool) → ℕ → List ℕ → Type 0
Stops p n pre =
    (j : ℕ) × (advance (length (down p n) - 4) (pre ++ down p n) (length pre + 4) ≡ ok j)
    × StopsAt (pre ++ down p n) (stop pre (down p n)) (top_run p n) j

advance-take :
    (p : ℕ → Bool) (n : ℕ) (pre : List ℕ) (take : p n ≡ true)
    → ((pre : List ℕ) → Stops p n pre)
    → Stops p (suc n) pre
advance-take p n pre take ih = elim (lt-cases (length (down p n)) 4) [
  | inl short ↦
      let none_left : length (down p (suc n)) - 4 ≡ 0 = rw (down-take p n take) (omega arith) in
      let too_few : length (down p (suc n)) < 5 = rw (down-take p n take) (omega arith) in
      (
        length pre + 4,
        rw none_left (unfold advance in refl),
        rw (top_run-short p (suc n) too_few, none_left) (omega arith),
      )
  | inr long ↦ elim (Bool-cases (leb 4 n && consecutive p (n - 4) 5)) [
    | inl run ↦
        let (e, ahead, same) = row_ahead p n pre take long in
        (
          length pre + 4,
          rw (
            row_rounds p n pre take long,
            advance-step _ _ _ n e (row_here p n pre take long) ahead,
            same,
            run,
          ),
          rw (top_run-here p n run) (omega arith, lt-of-at _ _ ahead, row_here p n pre take long),
        )
    | inr no_run ↦
        let (e, ahead, same) = row_ahead p n pre take long in
        let (j, runs, stops) = ih (pre ++ n ∷ []) in
        let count : stop (pre ++ n ∷ []) (down p n) ≡ stop pre (down p (suc n)) =
          omega (arith, length-append pre (n ∷ []), row_rounds p n pre take long) in
        (
          j,
          rw
              (
                row_rounds p n pre take long,
                advance-step _ _ _ n e (row_here p n pre take long) ahead,
                same,
                no_run,
                row_next p n pre take long,
                row_index p n pre take long,
              )
              runs,
          rw (top_run-past p n no_run, row_next p n pre take long, ← count) stops,
        )
  ]
]

pub advance-Stops : (p : ℕ → Bool) (n : ℕ) (pre : List ℕ) → Stops p n pre
advance-Stops p zero pre = unfold advance down top_run in (length pre + 4, refl, omega arith)
advance-Stops p (suc n) pre = elim (Bool-cases (p n)) [
  | inr skip ↦ rw (down-skip p n skip, top_run-skip p n skip) (advance-Stops p n pre)
  | inl take ↦ advance-take p n pre take (advance-Stops p n)
]
