-- ===== src/Combinations/Spec.antt =====
-- What the tables of a hand mean, said of the cards themselves.
use card_bluff.Prelude.{
  ℕ, suc, ◌<◌, ◌≡◌, Bool, false, List, [], ◌∷◌, ◌==◌, ltb, ◌&&◌, ◌||◌, if◌then◌else◌, tabulate,
  down,
}
use card_bluff.Combinations.Hand.{Hand, card_rank, card_suit}

-- The card of suit s and rank r is among the cards.
abbrev pub has : List ℕ → ℕ → ℕ → Bool
has [] s r = false
has (c ∷ v) s r = s == card_suit c && r == card_rank c || has v s r

-- The number of cards of rank r.
abbrev pub count : List ℕ → ℕ → ℕ
count [] r = 0
count (c ∷ v) r = if r == card_rank c then suc (count v r) else count v r

-- The cards are of the pack of 52, and no two are the same.
abbrev pub IsDealt : List ℕ → Type 0
IsDealt [] = Unit
IsDealt (c ∷ v) = (c < 52) × (has v (card_suit c) (card_rank c) ≡ false) × IsDealt v

-- The hand that the comments of combinations.h describe.
abbrev pub described : List ℕ → Hand
described v = record {
  suit_rank_b = tabulate 4 0 (λ s. tabulate 13 0 (has v s));
  suit_rank = tabulate 4 0 (λ s. down (has v s) 13);
  rank_number = tabulate 13 0 (count v);
  number_rank = tabulate 4 0 (λ n. down (λ r. ltb n (count v r)) 13);
}
