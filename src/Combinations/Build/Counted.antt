-- ===== src/Combinations/Build/Counted.antt =====
-- The number of cards of a rank, counted over the suits.
use card_bluff.Prelude.{
  ℕ, ◌+◌, ◌≤◌, ◌≡◌, refl, Bool, true, false, List, [], ◌∷◌, ◌==◌, ◌&&◌, if◌then◌else◌, arith,
  Bool-cases, inl, inr,
}
use card_bluff.Combinations.Hand.{card_rank, card_suit}
use card_bluff.Combinations.Spec.{has, count, IsDealt}

-- A rank has at most one card of each suit.
bit : Bool → ℕ
bit true = 1
bit false = 0

is_card : ℕ → ℕ → ℕ → ℕ
is_card c s r = if s == card_suit c && r == card_rank c then 1 else 0

has-is_card :
    (c : ℕ) (v : List ℕ) (s r : ℕ)
    → has v (card_suit c) (card_rank c) ≡ false
    → bit (has (c ∷ v) s r) ≡ is_card c s r + bit (has v s r)
unfolding bit is_card
has-is_card c v s r new = elim (Bool-cases (s == card_suit c && r == card_rank c)) [
  | inl here ↦
      let same_suit : s ≡ card_suit c = ground arith in
      let same_rank : r ≡ card_rank c = ground arith in rw (here, same_suit, same_rank, new)
  | inr there ↦ rw there (omega arith)
]

is_card-sum :
    (c r : ℕ)
    → is_card c 0 r + is_card c 1 r + is_card c 2 r + is_card c 3 r
      ≡ (if r == card_rank c then 1 else 0)
unfolding is_card
is_card-sum c r = ground arith

count-has :
    (v : List ℕ) (r : ℕ)
    → IsDealt v
    → count v r ≡ bit (has v 0 r) + bit (has v 1 r) + bit (has v 2 r) + bit (has v 3 r)
count-has [] r d = unfold bit in refl
count-has (c ∷ v) r d =
    let cards = is_card-sum c r in
    let rest = count-has v r d.2 in
    let sum : count (c ∷ v) r ≡ (if r == card_rank c then 1 else 0) + count v r = ground arith in
    omega (
      arith,
      sum,
      cards,
      rest,
      has-is_card c v 0 r d.1,
      has-is_card c v 1 r d.1,
      has-is_card c v 2 r d.1,
      has-is_card c v 3 r d.1,
    )

pub count-le : (v : List ℕ) (r : ℕ) → IsDealt v → count v r ≤ 4
unfolding bit
count-le v r d = ground (arith, count-has v r d)
