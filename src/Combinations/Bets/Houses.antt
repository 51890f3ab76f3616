-- ===== src/Combinations/Bets/Houses.antt =====
-- The full house that `find_best_full_house` of CardBluffServer/combinations.cpp finds.
use card_bluff.Prelude.{
  ℕ, zero, suc, ◌≤◌, ◌<◌, ◌≡◌, ◌≢◌, refl, ◌⊎◌, Bool, true, false, List, ◌∷◌, Option, none, some,
  ◌==◌, ltb, down, ok, arith, Bool-cases, inl, inr, lt-cases, eq-cases, Option-cases, ne→==,
}
use card_bluff.Combinations.Spec.{count, described}
use card_bluff.Combinations.Find.{other_rank, full_house_among, find_best_full_house}

-- The greatest number below n with q other than a.
abbrev OtherTop : (ℕ → Bool) → ℕ → ℕ → Option (ℕ × ℕ) → Type 0
OtherTop q n a none = (r : ℕ) → r < n → a ≢ r → q r ≡ false
OtherTop q n a (some (x, b)) =
    (x ≡ a) × (b < n) × (a ≢ b) × (q b ≡ true) × ((r : ℕ) → r < n → a ≢ r → q r ≡ true → r ≤ b)

OtherTop-skip :
    (q : ℕ → Bool) (n a : ℕ) (o : Option (ℕ × ℕ))
    → (a ≢ n → q n ≡ false)
    → OtherTop q n a o
    → OtherTop q (suc n) a o
OtherTop-skip q n a none skip h = λ r l d. elim (lt-cases r n) [
  | inl below ↦ h r below d
  | inr top ↦ let e : r ≡ n = omega arith in rw e (skip (rw e at d))
]
OtherTop-skip q n a (some (x, b)) skip h = (
  h.0,
  omega (arith, h.1),
  h.2,
  h.3,
  λ r l d sat. elim (lt-cases r n) [
    | inl below ↦ h.4 r below d sat
    | inr top ↦
        let e : r ≡ n = omega arith in
        let sat' : q n ≡ true = rw e at sat in let no_sat = skip (rw e at d) in cc
  ],
)

other_rank-OtherTop : (q : ℕ → Bool) (a n : ℕ) → OtherTop q n a (other_rank a (down q n))
unfolding other_rank down
other_rank-OtherTop q a zero = λ r l. absurd (omega arith)
other_rank-OtherTop q a (suc n) = elim (Bool-cases (q n)) [
  | inr skip ↦
      rw skip
        (OtherTop-skip q n a (other_rank a (down q n)) (λ d. skip) (other_rank-OtherTop q a n))
  | inl take ↦ elim (eq-cases a n) [
    | inl same ↦
        let hit : (a == n) ≡ true = ground arith in
        rw (take, hit)
          (OtherTop-skip q n a (other_rank a (down q n)) (λ d. absurd (d same))
            (other_rank-OtherTop q a n))
    | inr differ ↦
        rw (take, ne→== a n differ) (refl, omega arith, differ, take, λ r l d sat. omega arith)
  ]
]

-- The greatest pair of different numbers with p and q, the first one first. Both are below 13.
abbrev pub TopHouse : (ℕ → Bool) → (ℕ → Bool) → ℕ → Option (ℕ × ℕ) → Type 0
TopHouse p q n none = (a b : ℕ) → a < n → b < 13 → a ≢ b → p a ≡ true → q b ≡ false
TopHouse p q n (some (x, y)) =
    (x < n)
    × (y < 13)
    × (x ≢ y)
    × (p x ≡ true)
    × (q y ≡ true)
    × ((a b : ℕ) → a < n → b < 13 → a ≢ b → p a ≡ true → q b ≡ true → (a < x) ⊎ ((a ≡ x) × (b ≤ y)))

TopHouse-skip :
    (p q : ℕ → Bool) (n : ℕ) (o : Option (ℕ × ℕ))
    → ((b : ℕ) → b < 13 → n ≢ b → p n ≡ true → q b ≡ false)
    → TopHouse p q n o
    → TopHouse p q (suc n) o
TopHouse-skip p q n none skip h = λ a b l u d sat. elim (lt-cases a n) [
  | inl below ↦ h a b below u d sat
  | inr top ↦ let e : a ≡ n = omega arith in skip b u (rw e at d) (rw e at sat)
]
TopHouse-skip p q n (some (x, y)) skip h = (
  omega (arith, h.0),
  h.1,
  h.2,
  h.3,
  h.4,
  λ a b l u d sat sat'. elim (lt-cases a n) [
    | inl below ↦ h.5 a b below u d sat sat'
    | inr top ↦ let e : a ≡ n = omega arith in let no_sat = skip b u (rw e at d) (rw e at sat) in cc
  ],
)

-- What the outer loop does at a rank with p, given what it does after it.
house : Option (ℕ × ℕ) → Option (ℕ × ℕ) → Option (ℕ × ℕ)
house (some r) rest = some r
house none rest = rest

house-TopHouse :
    (p q : ℕ → Bool) (n : ℕ) (o rest : Option (ℕ × ℕ))
    → n < 13
    → p n ≡ true
    → OtherTop q 13 n o
    → TopHouse p q n rest
    → TopHouse p q (suc n) (house o rest)
unfolding house
house-TopHouse p q n none rest l take h k = TopHouse-skip p q n rest (λ b u d sat. h b u d) k
house-TopHouse p q n (some (x, y)) rest l take h k = (
  omega (arith, h.0),
  h.1,
  rw h.0 h.2,
  rw h.0 take,
  h.3,
  λ a b l u d sat sat'. elim (lt-cases a n) [
    | inl below ↦ inl (omega (arith, h.0))
    | inr top ↦ let e : a ≡ n = omega arith in inr (omega (arith, h.0), h.4 b u (rw e at d) sat')
  ],
)

full_house_among-cons :
    (r : ℕ) (threes twos : List ℕ)
    → full_house_among (r ∷ threes) twos ≡ house (other_rank r twos) (full_house_among threes twos)
unfolding full_house_among house
full_house_among-cons r threes twos = elim (Option-cases (other_rank r twos)) [
  | inl e ↦ rw (e, full_house_among)
  | inr (x, e) ↦ rw (e, full_house_among)
]

full_house-TopHouse :
    (p q : ℕ → Bool) (n : ℕ) → n ≤ 13 → TopHouse p q n (full_house_among (down p n) (down q 13))
unfolding down
full_house-TopHouse p q zero l = unfold full_house_among in λ a b u. absurd (omega arith)
full_house-TopHouse p q (suc n) l = elim (Bool-cases (p n)) [
  | inr skip ↦ rw skip (
      TopHouse-skip p q n (full_house_among (down p n) (down q 13)) (λ b u d sat. cc)
        (full_house-TopHouse p q n (omega arith)))
  | inl take ↦
      rw (take, full_house_among-cons n (down p n) (down q 13))
        (house-TopHouse p q n (other_rank n (down q 13)) (full_house_among (down p n) (down q 13)) l
          take (other_rank-OtherTop q n 13) (full_house-TopHouse p q n (omega arith)))
]

-- `find_best_full_house` returns the greatest ranks of three and of two cards that differ, if any.
pub find_best_full_house-TopHouse :
    (v : List ℕ)
    → (y : Option (ℕ × ℕ)) × (find_best_full_house (described v) ≡ ok y)
      × TopHouse (λ r. ltb 2 (count v r)) (λ r. ltb 1 (count v r)) 13 y
unfolding find_best_full_house
find_best_full_house-TopHouse v = (
  full_house_among _ _,
  refl,
  full_house-TopHouse (λ r. ltb 2 (count v r)) (λ r. ltb 1 (count v r)) 13 (omega arith),
)
