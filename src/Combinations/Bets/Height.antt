-- ===== src/Combinations/Bets/Height.antt =====
-- The bets of one round rise in the order of `less_combination` of CardBluffServer/combinations.cpp, so
-- there are only so many of them.
use card_bluff.Prelude.{
  ℕ, zero, suc, ◌+◌, ◌*◌, ◌-◌, ◌≤◌, ◌<◌, ◌≡◌, inl, inr, true, List, [], ◌∷◌, ok, arith, eq-cases,
  lt-cases, length,
}
use card_bluff.Prelude.Int.{pos}
use card_bluff.Combinations.Check.{clever_asserts}
use card_bluff.Combinations.Bets.{Bet, encode, kind_of}
use card_bluff.Combinations.Bets.Ranking.{less-lower}
use card_bluff.Combinations.Bets.Optimal.{kind_of_le}
use card_bluff.Combinations.Order.{negate, less_combination, lexicographic, comparison_key}
use card_bluff.Combinations.Command.Proper.{IsAccepted}

-- The place of a bet among all.
height : Bet → ℕ
height Bet.nothing = 0
height (Bet.high_card r) = 169 + r
height (Bet.pair r) = 2 * 169 + r
height (Bet.two_pairs a b) = 3 * 169 + a * 13 + b
height (Bet.set r) = 4 * 169 + r
height (Bet.straight r) = 5 * 169 + r
height (Bet.flush r s) = 6 * 169 + (12 - r)
height (Bet.full_house a b) = 7 * 169 + a * 13 + b
height (Bet.square r) = 8 * 169 + r
height (Bet.straight_flush r s) = 9 * 169 + r

abbrev IsStanding : Bet → Type 0
IsStanding Bet.nothing = Unit
IsStanding b = IsAccepted b

standing : (b : Bet) → IsAccepted b → IsStanding b
standing Bet.nothing h = tt
standing (Bet.high_card r) h = h
standing (Bet.pair r) h = h
standing (Bet.two_pairs a b) h = h
standing (Bet.set r) h = h
standing (Bet.straight r) h = h
standing (Bet.flush r s) h = h
standing (Bet.full_house a b) h = h
standing (Bet.square r) h = h
standing (Bet.straight_flush r s) h = h

height-range :
    (b : Bet) → IsStanding b → (kind_of b * 169 ≤ height b) × (height b < kind_of b * 169 + 169)
unfolding height
height-range Bet.nothing h = omega arith
height-range (Bet.high_card r) h = omega arith
height-range (Bet.pair r) h = omega arith
height-range (Bet.two_pairs a b) h = omega arith
height-range (Bet.set r) h = omega arith
height-range (Bet.straight r) h = omega arith
height-range (Bet.flush r s) h = omega arith
height-range (Bet.full_house a b) h = omega arith
height-range (Bet.square r) h = omega arith
height-range (Bet.straight_flush r s) h = omega arith

flush-rises :
    (r q : ℕ) → ok (lexicographic (pos 6 ∷ negate r ∷ []) (pos 6 ∷ negate q ∷ [])) ≡ ok true → q < r
unfolding lexicographic
flush-rises zero zero h = ground arith
flush-rises zero (suc q) h = ground arith
flush-rises (suc r) zero h = omega arith
flush-rises (suc r) (suc q) h = ground arith

height-same :
    (b c : Bet)
    → IsStanding b
    → IsStanding c
    → kind_of b ≡ kind_of c
    → less_combination (encode b) (encode c) ≡ ok true
    → height b < height c
unfolding height less_combination clever_asserts comparison_key lexicographic
height-same Bet.nothing Bet.nothing h k e l = absurd (ground arith)
height-same (Bet.high_card r) (Bet.high_card q) h k e l = ground arith
height-same (Bet.pair r) (Bet.pair q) h k e l = ground arith
height-same (Bet.two_pairs a b) (Bet.two_pairs c d) h k e l = ground arith
height-same (Bet.set r) (Bet.set q) h k e l = ground arith
height-same (Bet.straight r) (Bet.straight q) h k e l = ground arith
height-same (Bet.flush r s) (Bet.flush q t) h k e l = omega (arith, flush-rises r q l, h.1)
height-same (Bet.full_house a b) (Bet.full_house c d) h k e l = ground arith
height-same (Bet.square r) (Bet.square q) h k e l = ground arith
height-same (Bet.straight_flush r s) (Bet.straight_flush q t) h k e l = ground arith
height-same _ _ h k e l = absurd (omega arith)

height-less :
    (b c : Bet)
    → IsStanding b
    → IsStanding c
    → less_combination (encode b) (encode c) ≡ ok true
    → height b < height c
height-less b c h k l = elim (eq-cases (kind_of b) (kind_of c)) [
  | inl same ↦ height-same b c h k same l
  | inr differ ↦ elim (lt-cases (kind_of c) (kind_of b)) [
    | inl lower ↦ let no_rise = less-lower b c lower in absurd (ground arith)
    | inr higher ↦ omega (arith, height-range b h, height-range c k, differ)
  ]
]

-- The bets that a player can make after b, each above the one before it.
abbrev pub Rising : Bet → List Bet → Type 0
Rising b [] = Unit
Rising b (c ∷ cs) = IsAccepted c × (less_combination (encode b) (encode c) ≡ ok true) × Rising c cs

Rising-height : (b : Bet) (cs : List Bet) → IsStanding b → Rising b cs → length cs + height b < 1690
Rising-height b [] h rising = omega (arith, height-range b h, kind_of_le b)
Rising-height b (c ∷ cs) h (accepted, up, rising) =
    let k = standing c accepted in
    omega (arith, height-less b c h k up, Rising-height c cs k rising)

-- Bets that a player can make, the first above nothing in `less_combination` and each later one above
-- the one before it, are fewer than 1690.
pub bidding-ends : (cs : List Bet) → Rising Bet.nothing cs → length cs < 1690
unfolding height
bidding-ends cs rising = omega (arith, Rising-height Bet.nothing cs tt rising)
