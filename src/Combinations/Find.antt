-- ===== src/Combinations/Find.antt =====
-- The functions `find_best_*` of CardBluffServer/combinations.cpp. The source returns -1 where there
-- is nothing to return: `none` here.
use card_bluff.Prelude.{
  ℕ, zero, suc, ◌+◌, ◌-◌, Bool, List, [], ◌∷◌, Option, none, some, ltb, leb, ◌==◌, if◌then◌else◌,
  length, Run, ok, ◌>>=◌, at,
}
use card_bluff.Combinations.Hand.{Hand}
use card_bluff.Combinations.Check.{check_straight}
use card_bluff.Combinations.Rank

-- `while (i < row.size() && row[i - 4] - 4 != row[i]) ++i;`, with the rounds that are left to the
-- end of the row. The ranks may be below 4, so the test adds on the other side.
unfoldable pub advance : ℕ → List ℕ → ℕ → Run ℕ
advance zero row i = ok i
advance (suc n) row i =
    let rest = advance n row (suc i) in
    at row (i - 4) >>= λ a. at row i >>= λ b. if a == b + 4 then ok i else rest

-- The `if` after it: an index at the end stands for 5 4 3 2 A, and moves past the end without it.
unfoldable pub past_end : List Bool → List ℕ → ℕ → Run ℕ
past_end row_b row i =
    if i == length row
    then (do
      ace ← at row_b (Rank.ranks - 1)
      if ace then (at row (i - 4) >>= λ a. ok (if a == 3 then i else suc i)) else ok (suc i))
    else ok i

-- `x`, the suit of the best candidate, and the top rank of its straight.
abbrev pub Best : Type 0
Best = Option (ℕ × ℕ)

-- The last `if` of the loop's body: whether suit i replaces x.
unfoldable pub replaces : List ℕ → ℕ → ℕ → Best → Run Best
replaces row suit i x =
    if ltb i (length row)
    then (at row (i - 4) >>= λ top. elim x [
      | none ↦ ok (some (top, suit))
      | some (best, other) ↦ ok (if ltb best top then some (top, suit) else some (best, other))
    ])
    else if i == length row
    then elim x [ none ↦ at row (i - 4) >>= λ top. ok (some (top, suit)) | some b ↦ ok (some b) ]
    else ok x

-- One round of the `for` loop over the suits, from `indices[i] == 4`.
unfoldable pub look_at_suit : Hand → ℕ → Best → Run Best
unfolding past_end replaces
look_at_suit h suit x = do
  row ← at h.suit_rank suit
  row_b ← at h.suit_rank_b suit
  i ← advance (length row - 4) row 4
  j ← past_end row_b row i
  replaces row suit j x

-- The `for` loop: suits from `suit`, for `n` rounds.
unfoldable pub look_at_suits : Hand → ℕ → ℕ → Best → Run Best
look_at_suits h zero suit x = ok x
look_at_suits h (suc n) suit x = look_at_suit h suit x >>= λ y. look_at_suits h n (suc suit) y

-- The `while (good)` loop ends in its first round, one way or the other.
unfoldable pub find_best_straight_flush : Hand → Run (Option (ℕ × ℕ))
find_best_straight_flush h = look_at_suits h Rank.suits 0 none

-- `if (v.size()) return v.front(); else return -1;`
abbrev pub first {ℓ} : {A : Type ℓ} → List A → Option A
first [] = none
first (x ∷ xs) = some x

unfoldable pub find_best_four_of_a_kind : Hand → Run (Option ℕ)
find_best_four_of_a_kind h = at h.number_rank 3 >>= λ v. ok (first v)

-- The inner loop of `find_best_full_house`, for one rank of the three cards.
unfoldable pub other_rank : ℕ → List ℕ → Option (ℕ × ℕ)
other_rank r3 [] = none
other_rank r3 (r2 ∷ rs) = if r3 == r2 then other_rank r3 rs else some (r3, r2)

unfoldable pub full_house_among : List ℕ → List ℕ → Option (ℕ × ℕ)
unfolding other_rank
full_house_among [] twos = none
full_house_among (r3 ∷ rs) twos = elim (other_rank r3 twos) [
  | some p ↦ some p
  | none ↦ full_house_among rs twos
]

unfoldable pub find_best_full_house : Hand → Run (Option (ℕ × ℕ))
find_best_full_house h = do
  threes ← at h.number_rank 2
  twos ← at h.number_rank 1
  ok (full_house_among threes twos)

-- The body of the loop over the suits: a rank, then a suit.
unfoldable pub lower_flush : List ℕ → ℕ → Option (ℕ × ℕ) → Run (Option (ℕ × ℕ))
lower_flush ranks suit ans =
    if leb 5 (length ranks)
    then (at ranks (length ranks - 5) >>= λ r. elim ans [
      | none ↦ ok (some (r, suit))
      | some (best, other) ↦ ok (if ltb r best then some (r, suit) else some (best, other))
    ])
    else ok ans

unfoldable pub flush_from : Hand → ℕ → ℕ → Option (ℕ × ℕ) → Run (Option (ℕ × ℕ))
unfolding lower_flush
flush_from h zero suit ans = ok ans
flush_from h (suc n) suit ans = at h.suit_rank suit >>= λ ranks.
    lower_flush ranks suit ans >>= λ ans'. flush_from h n (suc suit) ans'

unfoldable pub find_best_flush : Hand → Run (Option (ℕ × ℕ))
find_best_flush h = flush_from h Rank.suits 0 none

-- `for (x = from; x < from + n; ++x)` over `number_rank[0]`.
unfoldable pub straight_from : List ℕ → ℕ → ℕ → Run (Option ℕ)
straight_from v zero x = ok none
straight_from v (suc n) x =
    let rest = straight_from v n (suc x) in
    at v (x - 4) >>= λ a. at v x >>= λ b. if a == b + 4 then ok (some a) else rest

unfoldable pub find_best_straight : Hand → Run (Option ℕ)
find_best_straight h = do
  v ← at h.number_rank 0
  found ← straight_from v (length v - 4) 4
  elim found [
    | some r ↦ ok (some r)
    | none ↦ check_straight h 3 >>= λ wheel. ok (if wheel then some 3 else none)
  ]

unfoldable pub find_best_three_of_a_kind : Hand → Run (Option ℕ)
find_best_three_of_a_kind h = at h.number_rank 2 >>= λ v. ok (first v)

abbrev pub first_two : List ℕ → Option (ℕ × ℕ)
first_two [] = none
first_two (a ∷ []) = none
first_two (a ∷ b ∷ v) = some (a, b)

unfoldable pub find_best_two_pairs : Hand → Run (Option (ℕ × ℕ))
find_best_two_pairs h = at h.number_rank 1 >>= λ v. ok (first_two v)

unfoldable pub find_best_pair : Hand → Run (Option ℕ)
find_best_pair h = at h.number_rank 1 >>= λ v. ok (first v)

unfoldable pub find_best_high_card : Hand → Run (Option ℕ)
find_best_high_card h = at h.number_rank 0 >>= λ v. ok (first v)
