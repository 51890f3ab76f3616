-- ===== src/Combinations/Bets/Checked.antt =====
-- `check_combination` of CardBluffServer/combinations.cpp decides whether the cards contain a bet.
use card_bluff.Prelude.{
  ℕ, zero, suc, ◌+◌, ◌-◌, ◌≤◌, ◌<◌, ◌≡◌, refl, ap, Bool, true, false, not, List, ◌==◌, leb, ◌&&◌,
  length, tabulate, at-table, down, ok, at, arith, Bool-cases, inl, inr, lt-cases, le→leb, ne→==,
}
use card_bluff.Combinations.Spec.{has, count, described}
use card_bluff.Combinations.Check.{
  clever_asserts, at_least, all_set, all_present, check_straight_flush, check_flush, check_straight,
  check_combination, check_full_house, check_four_of_a_kind, check_three_of_a_kind, check_two_pairs,
  check_pair, check_high_card, check_nothing,
}
use card_bluff.Combinations.Bets.{
  Bet, encode, IsProper, holds, consecutive, five_in_a_row, tally, present,
}

at_least_lem : (v : List ℕ) (n r : ℕ) → r < 13 → at_least (described v) n r ≡ ok (leb n (count v r))
unfolding at_least
at_least_lem v n r h = rw (at-table 13 r (count v) h)

pub all_set_lem :
    (p : ℕ → Bool) (n from : ℕ) (last : Bool)
    → from + n ≤ 13
    → all_set (tabulate 13 0 p) n from (ok last) ≡ ok (consecutive p from n && last)
unfolding all_set
all_set_lem p zero from last h = refl
all_set_lem p (suc n) from last h =
    rw (at-table 13 from p (omega arith), all_set_lem p n (suc from) last (omega arith))
      (ground arith)

all_present_lem :
    (f : ℕ → ℕ) (n from : ℕ) (last : Bool)
    → from + n ≤ 13
    → all_present (tabulate 13 0 f) n from (ok last)
      ≡ ok (consecutive (λ r. not (f r == 0)) from n && last)
unfolding all_present
all_present_lem f zero from last h = refl
all_present_lem f (suc n) from last h =
    rw (at-table 13 from f (omega arith), all_present_lem f n (suc from) last (omega arith))
      (ground arith)

and_true : (b : Bool) → (b && true) ≡ b
and_true true = refl
and_true false = refl

pub check_straight_lem :
    (v : List ℕ) (r : ℕ)
    → 3 ≤ r
    → r < 13
    → check_straight (described v) r ≡ ok (five_in_a_row (present v) r)
unfolding check_straight
check_straight_lem v r h l = elim (Bool-cases (r == 3)) [
  | inl wheel ↦ rw (wheel) (all_present_lem (count v) 4 0 (present v 12) (omega arith))
  | inr above ↦
      rw (above, le→leb 4 r (ground arith), all_present_lem (count v) 5 (r - 4) true (omega arith))
        (ap ok (and_true (consecutive (present v) (r - 4) 5)))
]

check_straight_flush_lem :
    (v : List ℕ) (r s : ℕ)
    → 3 ≤ r
    → r < 13
    → s < 4
    → check_straight_flush (described v) r s ≡ ok (five_in_a_row (has v s) r)
unfolding check_straight_flush
check_straight_flush_lem v r s h l hs = elim (Bool-cases (r == 3)) [
  | inl wheel ↦
      rw (le→leb 3 r h, at-table 4 s (λ s. tabulate 13 0 (has v s)) hs, wheel)
        (all_set_lem (has v s) 4 0 (has v s 12) (omega arith))
  | inr above ↦
      rw
        (
          le→leb 3 r h,
          at-table 4 s (λ s. tabulate 13 0 (has v s)) hs,
          above,
          all_set_lem (has v s) 5 (r - 4) true (omega arith),
        )
        (ap ok (and_true (consecutive (has v s) (r - 4) 5)))
]

-- The fifth lowest of the numbers that satisfy p is at most r exactly when five of them are.
pub length-down : (p : ℕ → Bool) (n : ℕ) → length (down p n) ≡ tally p n
unfolding down tally
length-down p zero = refl
length-down p (suc n) = ground (arith, length-down p n)

pub tally_mono : (p : ℕ → Bool) (m n : ℕ) → m ≤ n → tally p m ≤ tally p n
unfolding tally
tally_mono p m zero h = ground (arith)
tally_mono p m (suc n) h = elim (lt-cases n m) [
  | inl same ↦ let e : m ≡ suc n = omega arith in rw e (omega arith)
  | inr below ↦ ground (arith, tally_mono p m n below)
]

pub tally-suc : (p : ℕ → Bool) (n : ℕ) → p n ≡ true → tally p (suc n) ≡ suc (tally p n)
unfolding tally
tally-suc p n h = rw h

-- The element that has k others behind it.
abbrev pub FromEnd : (ℕ → Bool) → ℕ → ℕ → ℕ → Type 0
FromEnd p n k x =
    (at (down p n) (tally p n - suc k) ≡ ok x) × (p x ≡ true) × (tally p x ≡ k) × (x < n)

pub from_end : (p : ℕ → Bool) (n k : ℕ) → k < tally p n → (x : ℕ) × FromEnd p n k x
unfolding down tally
from_end p zero k h = elim h [ ]
from_end p (suc n) k h = elim (Bool-cases (p n)) [
  | inr skip ↦
      let (x, (here, sat, rank, below)) = from_end p n k (ground arith) in
      (x, (rw skip here, sat, rank, omega arith))
  | inl take ↦ elim (lt-cases k (tally p n)) [
    | inl deeper ↦
        let (x, (here, sat, rank, below)) = from_end p n k deeper in
        let e : suc (tally p n) - suc k ≡ suc (tally p n - suc k) = omega arith in
        (x, (rw (take, e) here, sat, rank, omega arith))
    | inr last ↦
        let e : suc (tally p n) - suc k ≡ 0 = ground arith in
        (n, (rw (take, e), take, ground arith, omega arith))
  ]
]

-- The test of `check_flush` on the ranks of one suit.
lowest_five :
    (p : ℕ → Bool) (r : ℕ)
    → r < 13
    → p r ≡ true
    → 5 ≤ tally p 13
    → (x : ℕ) × (at (down p 13) (tally p 13 - 5) ≡ ok x) × (leb x r ≡ leb 5 (tally p (suc r)))
lowest_five p r h sat many =
    let (x, (here, psat, rank, below)) = from_end p 13 4 many in
    (
      x,
      here,
      elim (lt-cases r x) [
        | inl higher ↦ ground (arith, tally_mono p (suc r) x higher)
        | inr lower ↦ ground (arith, tally_mono p (suc x) (suc r), tally-suc p x psat)
      ],
    )

check_flush_lem :
    (v : List ℕ) (r s : ℕ)
    → r < 13
    → s < 4
    → check_flush (described v) r s ≡ ok (has v s r && leb 5 (tally (has v s) (suc r)))
unfolding check_flush
check_flush_lem v r s h hs =
    rw
      (
        at-table 4 s (λ s. down (has v s) 13) hs,
        at-table 4 s (λ s. tabulate 13 0 (has v s)) hs,
        at-table 13 r (has v s) h,
        length-down (has v s) 13,
      )
      (elim (Bool-cases (has v s r)) [
        | inr missing ↦ rw missing
        | inl there ↦ elim (lt-cases (tally (has v s) 13) 5) [
          | inl few ↦ ground (arith, tally_mono (has v s) (suc r) 13)
          | inr many ↦
              let (x, here, same) = lowest_five (has v s) r h there many in
              rw (there, le→leb 5 (tally (has v s) 13) many, here, same)
        ]
      ])

-- Whatever the cards are, `check_combination` returns, and says whether they contain the bet.
pub check_combination-holds :
    (v : List ℕ) (b : Bet)
    → IsProper b
    → check_combination (described v) (encode b) ≡ ok (holds v b)
unfolding check_combination clever_asserts check_nothing check_high_card check_pair check_two_pairs
    check_three_of_a_kind check_full_house check_four_of_a_kind
check_combination-holds v Bet.nothing h = refl
check_combination-holds v (Bet.high_card r) h = rw (at-table 13 r (count v) h)
check_combination-holds v (Bet.pair r) h = at_least_lem v 2 r h
check_combination-holds v (Bet.set r) h = at_least_lem v 3 r h
check_combination-holds v (Bet.square r) h = at_least_lem v 4 r h
check_combination-holds v (Bet.straight r) h = check_straight_lem v r h.0 h.1
check_combination-holds v (Bet.two_pairs a b) h =
    rw (at_least_lem v 2 a h.0, at_least_lem v 2 b h.1) (ground arith)
check_combination-holds v (Bet.full_house a b) h =
    rw (at_least_lem v 3 a h.0, at_least_lem v 2 b h.1, ne→== a b h.2) (ground arith)
check_combination-holds v (Bet.flush r s) h = check_flush_lem v r s h.0 h.1
check_combination-holds v (Bet.straight_flush r s) h = check_straight_flush_lem v r s h.0 h.1 h.2
