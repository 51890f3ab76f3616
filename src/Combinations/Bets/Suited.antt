-- ===== src/Combinations/Bets/Suited.antt =====
-- The highest straight flush: `find_best_straight_flush` of CardBluffServer/combinations.cpp.
use card_bluff.Prelude.{
  ℕ, zero, suc, ◌+◌, ◌-◌, ◌≤◌, ◌<◌, ◌≡◌, refl, Bool, true, false, List, [], Option, none, some,
  ◌==◌, ltb, if◌then◌else◌, length, down, ok, ◌>>=◌, at, arith, tabulate, at-table, Bool-cases, inl,
  inr, lt-cases, eq-cases, ne→==, lt→ltb, le→ltb, ==_refl, Run,
}
use card_bluff.Combinations.Spec.{has, described}
use card_bluff.Combinations.Find.{
  Best, past_end, replaces, look_at_suit, look_at_suits, find_best_straight_flush,
}
use card_bluff.Combinations.Bets.{consecutive, five_in_a_row, tally}
use card_bluff.Combinations.Bets.Checked.{from_end, length-down, tally_mono}
use card_bluff.Combinations.Bets.Rows.{top_run, advance-Stops, StopsAt, stop}
use card_bluff.Combinations.Bets.Tops.{best_top, or_wheel, IsTopRow, best_top-IsTopRow}

-- What a suit with the given highest straight does to the best candidate so far.
merge : ℕ → Best → Option ℕ → Best
merge s x none = x
merge s none (some t) = some (t, s)
merge s (some (b, o)) (some t) = if ltb b t then some (t, s) else some (b, o)

-- A candidate's top is a five at least.
abbrev IsHigh : Best → Type 0
IsHigh none = Unit
IsHigh (some (b, o)) = 3 ≤ b

tally-le : (p : ℕ → Bool) (n : ℕ) → tally p n ≤ n
unfolding tally
tally-le p zero = omega arith
tally-le p (suc n) = ground (arith, tally-le p n)

tally_three : (p : ℕ → Bool) → tally p 3 ≡ 3 → p 3 ≡ true → consecutive p 0 4 ≡ true
unfolding tally
tally_three p h l = ground arith

tally_four : (p : ℕ → Bool) → consecutive p 0 4 ≡ true → tally p 4 ≡ 4
unfolding tally
tally_four p h = ground arith

-- The fourth lowest rank is a five exactly when the two, three, four and five are there.
fourth_lowest : (p : ℕ → Bool) (x : ℕ) → p x ≡ true → tally p x ≡ 3 → (x == 3) ≡ consecutive p 0 4
fourth_lowest p x here rank = elim (eq-cases x 3) [
  | inl three ↦
      let t : tally p 3 ≡ 3 = rw three at rank in
      let h : p 3 ≡ true = rw three at here in rw (three, tally_three p t h)
  | inr other ↦ elim (Bool-cases (consecutive p 0 4)) [
    | inr no_run ↦ rw (no_run, ne→== x 3 other)
    | inl run ↦ absurd (omega (arith, tally_four p run, tally_mono p 4 x, tally-le p x, other))
  ]
]

module _ (p : ℕ → Bool) (s : ℕ) (x : Best) (high : IsHigh x) where
  -- The end of the body of the loop over the suits, from where the `while` loop has stopped.
  finish_suit : ℕ → Run Best
  finish_suit i = past_end (tabulate 13 0 p) (down p 13) i >>= λ j. replaces (down p 13) s j x

  finish-run :
      (t j : ℕ)
      → StopsAt (down p 13) (stop [] (down p 13)) (some t) j
      → finish_suit j ≡ ok (merge s x (some t))
  unfolding finish_suit past_end replaces merge
  finish-run t j h =
      rw (ne→== j (length (down p 13)) (omega arith), lt→ltb j (length (down p 13)) h.1, h.2)
        (ground arith)

  past : (j : ℕ) → length (down p 13) < j → replaces (down p 13) s j x ≡ ok x
  unfolding replaces
  past j h = ground arith

  at_end :
      at (down p 13) (length (down p 13) - 4) ≡ ok 3
      → replaces (down p 13) s (length (down p 13)) x ≡ ok (merge s x (some 3))
  unfolding replaces merge
  at_end here = rw (==_refl (length (down p 13)), here) (ground arith)

  no_wheel : length (down p 13) < 4 → five_in_a_row p 3 ≡ false
  no_wheel few = ground (arith, length-down p 13, tally_four p, tally_mono p 4 13)

  finish-short : length (down p 13) < 4 → finish_suit 4 ≡ ok (merge s x (or_wheel p none))
  unfolding finish_suit past_end merge or_wheel
  finish-short few = rw (ne→== 4 (length (down p 13)) (omega arith), no_wheel few) (past 4 few)

  finish-end :
      4 ≤ length (down p 13) → finish_suit (length (down p 13)) ≡ ok (merge s x (or_wheel p none))
  unfolding finish_suit past_end merge or_wheel
  finish-end many =
      let (y, (here, sat, rank, below)) = from_end p 13 3 (omega (arith, length-down p 13)) in
      let fourth : at (down p 13) (length (down p 13) - 4) ≡ ok y = rw (length-down p 13) here in
      let lowest = fourth_lowest p y sat rank in
      rw (==_refl (length (down p 13)), fourth)
        (elim (Bool-cases (p 12)) [
          | inr no_ace ↦ ground (arith, past (suc (length (down p 13))))
          | inl ace ↦ elim (Bool-cases (y == 3)) [
            | inl three ↦ let e : y ≡ 3 = ground arith in ground (arith, at_end (rw e at fourth))
            | inr other ↦ ground (arith, past (suc (length (down p 13))))
          ]
        ])

  finish_lem :
      (j : ℕ) (o : Option ℕ)
      → StopsAt (down p 13) (stop [] (down p 13)) o j
      → finish_suit j ≡ ok (merge s x (or_wheel p o))
  finish_lem j (some t) h = unfold or_wheel in finish-run t j h
  finish_lem j none h = elim (lt-cases (length (down p 13)) 4) [
    | inl few ↦ let e : j ≡ 4 = omega arith in rw e (finish-short few)
    | inr many ↦ let e : j ≡ length (down p 13) = omega arith in rw e (finish-end many)
  ]

look_at_suit_lem :
    (v : List ℕ) (s : ℕ) (x : Best)
    → s < 4
    → IsHigh x
    → look_at_suit (described v) s x ≡ ok (merge s x (best_top (has v s)))
unfolding look_at_suit best_top finish_suit
look_at_suit_lem v s x h high =
    let (j, run, stops) = advance-Stops (has v s) 13 [] in
    rw (at-table 4 s (λ s. down (has v s) 13) h, at-table 4 s (λ s. tabulate 13 0 (has v s)) h, run)
      (finish_lem (has v s) s x high j (top_run (has v s) 13) stops)

-- The best straight flush among the suits below n.
abbrev pub TopFlush : List ℕ → ℕ → Best → Type 0
TopFlush v n none = (s : ℕ) → s < n → (r : ℕ) → 3 ≤ r → r < 13 → five_in_a_row (has v s) r ≡ false
TopFlush v n (some (t, o)) =
    (3 ≤ t)
    × (t < 13)
    × (o < n)
    × (five_in_a_row (has v o) t ≡ true)
    × ((s : ℕ) → s < n → (r : ℕ) → 3 ≤ r → r < 13 → five_in_a_row (has v s) r ≡ true → r ≤ t)

pub extend : (n : ℕ) (P : ℕ → Type 0) → ((s : ℕ) → s < n → P s) → P n → (s : ℕ) → s < suc n → P s
extend n P h k s l = elim (lt-cases s n) [
  | inl below ↦ h s below
  | inr top ↦ let e : s ≡ n = omega arith in rw e k
]

abbrev Capped : List ℕ → ℕ → ℕ → Type 0
Capped v t s = (r : ℕ) → 3 ≤ r → r < 13 → five_in_a_row (has v s) r ≡ true → r ≤ t

TopFlush-IsHigh : (v : List ℕ) (n : ℕ) (x : Best) → TopFlush v n x → IsHigh x
TopFlush-IsHigh v n none h = tt
TopFlush-IsHigh v n (some (b, o)) h = h.0

merge-TopFlush :
    (v : List ℕ) (n : ℕ) (x : Best) (o : Option ℕ)
    → TopFlush v n x
    → IsTopRow (has v n) o
    → TopFlush v (suc n) (merge n x o)
unfolding merge
merge-TopFlush v n none none h k =
    extend n (λ s. (r : ℕ) → 3 ≤ r → r < 13 → five_in_a_row (has v s) r ≡ false) h k
merge-TopFlush v n none (some t) h k = (
  k.0,
  k.1,
  omega arith,
  k.2,
  extend n (Capped v t) (λ s l r a b five. let no_run = h s l r a b in cc) k.3,
)
merge-TopFlush v n (some (b, o)) none h k = (
  h.0,
  h.1,
  omega (arith, h.2),
  h.3,
  extend n (Capped v b) h.4 (λ r a u five. let no_run = k r a u in cc),
)
merge-TopFlush v n (some (b, o)) (some t) h k = elim (lt-cases b t) [
  | inl better ↦ rw (lt→ltb b t better) (
    k.0,
    k.1,
    omega arith,
    k.2,
    extend n (Capped v t) (λ s l r a u five. omega (arith, h.4 s l r a u five)) k.3,
  )
  | inr worse ↦ rw (le→ltb t b worse) (
    h.0,
    h.1,
    omega (arith, h.2),
    h.3,
    extend n (Capped v b) h.4 (λ r a u five. omega (arith, k.3 r a u five)),
  )
]

look_at_suits_lem :
    (v : List ℕ) (m n : ℕ) (x : Best)
    → n + m ≡ 4
    → IsHigh x
    → TopFlush v n x
    → (y : Best) × (look_at_suits (described v) m n x ≡ ok y) × TopFlush v 4 y
unfolding look_at_suits
look_at_suits_lem v zero n x e high h = let e' : n ≡ 4 = omega arith in (x, refl, rw e' at h)
look_at_suits_lem v (suc m) n x e high h =
    let next = merge-TopFlush v n x (best_top (has v n)) h (best_top-IsTopRow (has v n)) in
    rw (look_at_suit_lem v n x (omega arith) high) (
      look_at_suits_lem v m (suc n) (merge n x (best_top (has v n))) (omega arith)
        (TopFlush-IsHigh v (suc n) _ next) next)

-- `find_best_straight_flush` returns a straight flush of the cards with the highest top, if any.
pub find_best_straight_flush-TopFlush :
    (v : List ℕ) → (y : Best) × (find_best_straight_flush (described v) ≡ ok y) × TopFlush v 4 y
unfolding find_best_straight_flush
find_best_straight_flush-TopFlush v =
    look_at_suits_lem v 4 0 none refl tt (λ s l. absurd (omega arith))
