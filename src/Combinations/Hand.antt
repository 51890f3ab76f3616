-- ===== src/Combinations/Hand.antt =====
-- The class `Hand` of CardBluffServer/combinations.h and its constructors in combinations.cpp: a set
-- of cards, kept as four tables. A card is a number: its rank times four, plus its suit.
use card_bluff.Prelude.{
  ℕ, zero, suc, ◌/◌, ◌%◌, Bool, true, false, List, [], ◌∷◌, ◌++◌, map, ltb, if◌then◌else◌,
  replicate, Run, ok, ◌>>=◌, at, update,
}
use card_bluff.Combinations.Rank

pub record Hand : Type 0 where
  -- `suit_rank_b[s][r]`: the hand contains the card of suit s and rank r.
  pub suit_rank_b : List (List Bool)
  -- `suit_rank[s]`: the ranks of suit s in decreasing order.
  pub suit_rank : List (List ℕ)
  -- `rank_number[r]`: the number of cards of rank r.
  pub rank_number : List ℕ
  -- `number_rank[n]`: the ranks that occur at least n + 1 times, in decreasing order.
  pub number_rank : List (List ℕ)

-- `v[i] >> 2` and `v[i] & 3`.
abbrev pub card_rank : ℕ → ℕ
card_rank c = c / 4

abbrev pub card_suit : ℕ → ℕ
card_suit c = c % 4

-- What the calls of `resize` give.
unfoldable pub resized : Hand
resized = record {
  suit_rank_b = replicate Rank.suits (replicate Rank.ranks false);
  suit_rank = replicate Rank.suits [];
  rank_number = replicate Rank.ranks 0;
  number_rank = [];
}

-- The body of the constructor's loop over the cards.
unfoldable pub add_card : Hand → ℕ → Run Hand
add_card h c = do
  counts ← update h.rank_number (card_rank c) suc
  ranks ← update h.suit_rank (card_suit c) (λ r. r ++ card_rank c ∷ [])
  row ← at h.suit_rank_b (card_suit c)
  row' ← update row (card_rank c) (λ _. true)
  table ← update h.suit_rank_b (card_suit c) (λ _. row')
  ok (record h { rank_number = counts; suit_rank = ranks; suit_rank_b = table })

unfoldable pub add_cards : Hand → List ℕ → Run Hand
add_cards h [] = ok h
add_cards h (c ∷ cs) = add_card h c >>= λ h'. add_cards h' cs

-- `sort(v.rbegin(), v.rend())`, as an insertion sort.
unfoldable pub insert_desc : ℕ → List ℕ → List ℕ
insert_desc x [] = x ∷ []
insert_desc x (y ∷ ys) = if ltb y x then x ∷ y ∷ ys else y ∷ insert_desc x ys

unfoldable pub sort_desc : List ℕ → List ℕ
sort_desc [] = []
sort_desc (x ∷ xs) = insert_desc x (sort_desc xs)

-- The inner loop of `fill_number_rank`: j runs from `j`, for `n` rounds.
unfoldable pub push_rank : ℕ → ℕ → ℕ → List (List ℕ) → Run (List (List ℕ))
push_rank i zero j table = ok table
push_rank i (suc n) j table = update table j (λ r. r ++ i ∷ []) >>= λ t. push_rank i n (suc j) t

-- The outer loop: i runs down from one below the given bound.
unfoldable pub fill_ranks : List ℕ → ℕ → List (List ℕ) → Run (List (List ℕ))
unfolding push_rank
fill_ranks counts zero table = ok table
fill_ranks counts (suc i) table =
    at counts i >>= λ n. push_rank i n 0 table >>= λ t. fill_ranks counts i t

unfoldable pub fill_number_rank : Hand → Run Hand
fill_number_rank h = do
  table ← fill_ranks h.rank_number Rank.ranks (replicate 4 [])
  ok (record h { number_rank = table })

-- `Hand()`.
unfoldable pub empty_hand : Run Hand
empty_hand = fill_number_rank resized

-- `Hand(v)`.
unfoldable pub hand_of : List ℕ → Run Hand
hand_of v = do
  h ← add_cards resized v
  fill_number_rank (record h { suit_rank = map sort_desc h.suit_rank })
