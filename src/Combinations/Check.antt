-- ===== src/Combinations/Check.antt =====
-- `clever_asserts`, the functions `check_*` and `check_combination` of CardBluffServer/combinations.cpp.
use card_bluff.Prelude.{
  ℕ, zero, suc, ◌-◌, Bool, true, false, not, List, ltb, leb, ◌==◌, if◌then◌else◌, length, Run, ok,
  fault, ◌>>=◌, ◌>>◌, assert, at,
}
use card_bluff.Combinations.Hand.{Hand}
use card_bluff.Combinations.Kind
use card_bluff.Combinations.Rank
use card_bluff.Combinations.Tables.{combination_size}

-- `v.front()`.
abbrev pub front {ℓ} : {A : Type ℓ} → List A → Run A
front v = at v 0

unfoldable pub clever_asserts : List ℕ → Run (Unit {0})
clever_asserts comb = do
  assert (ltb 0 (length comb))
  kind ← front comb
  assert (ltb kind Kind.count)
  size ← at combination_size kind
  assert (size == length comb)

-- `rank_number[rank] >= n`.
unfoldable pub at_least : Hand → ℕ → ℕ → Run Bool
at_least h n rank = at h.rank_number rank >>= λ k. ok (leb n k)

-- `for (i = from; i < from + n; ++i) if (!row[i]) return false;`, then `last`.
unfoldable pub all_set : List Bool → ℕ → ℕ → Run Bool → Run Bool
all_set row zero from last = last
all_set row (suc n) from last =
    let rest = all_set row n (suc from) last in at row from >>= λ b. if b then rest else ok false

-- The same loop over `rank_number[i] == 0`.
unfoldable pub all_present : List ℕ → ℕ → ℕ → Run Bool → Run Bool
all_present counts zero from last = last
all_present counts (suc n) from last =
    let rest = all_present counts n (suc from) last in
    at counts from >>= λ k. if k == 0 then ok false else rest

-- `rank - 4` is at least 0 where it is computed.
unfoldable pub check_straight_flush : Hand → ℕ → ℕ → Run Bool
check_straight_flush h rank suit =
    if leb 3 rank
    then (at h.suit_rank_b suit >>= λ row.
        if rank == 3
        then all_set row 4 0 (at row (Rank.ranks - 1))
        else all_set row 5 (rank - 4) (ok true))
    else fault

unfoldable pub check_four_of_a_kind : Hand → ℕ → Run Bool
unfolding at_least
check_four_of_a_kind h rank = at_least h 4 rank

-- `a && b`, where the second operand is evaluated only if the first is true.
abbrev pub and_then : Run Bool → Run Bool → Run Bool
and_then a b = a >>= λ x. if x then b else ok false

unfoldable pub check_full_house : Hand → ℕ → ℕ → Run Bool
unfolding at_least
check_full_house h rank3 rank2 = and_then (at_least h 3 rank3) (at_least h 2 rank2)

-- `suit_size - 5` is computed only where it is at least 0.
unfoldable pub check_flush : Hand → ℕ → ℕ → Run Bool
check_flush h rank suit = do
  ranks ← at h.suit_rank suit
  row ← at h.suit_rank_b suit
  and_then (at row rank) (
      if leb 5 (length ranks)
      then (at ranks (length ranks - 5) >>= λ lowest. ok (leb lowest rank))
      else ok false)

-- For a rank below 4 other than 3, `rank_number[rank - 4]` is out of range.
unfoldable pub check_straight : Hand → ℕ → Run Bool
check_straight h rank =
    if rank == 3
    then all_present h.rank_number 4 0
        (at h.rank_number (Rank.ranks - 1) >>= λ k. ok (not (k == 0)))
    else if leb 4 rank
    then all_present h.rank_number 5 (rank - 4) (ok true)
    else fault

unfoldable pub check_three_of_a_kind : Hand → ℕ → Run Bool
unfolding at_least
check_three_of_a_kind h rank = at_least h 3 rank

unfoldable pub check_two_pairs : Hand → ℕ → ℕ → Run Bool
unfolding at_least
check_two_pairs h rank1 rank2 = and_then (at_least h 2 rank1) (at_least h 2 rank2)

unfoldable pub check_pair : Hand → ℕ → Run Bool
unfolding at_least
check_pair h rank = at_least h 2 rank

-- `return rank_number[rank];`, an `int` read as a `bool`.
unfoldable pub check_high_card : Hand → ℕ → Run Bool
check_high_card h rank = at h.rank_number rank >>= λ k. ok (not (k == 0))

unfoldable pub check_nothing : Hand → Run Bool
check_nothing h = ok true

-- The `switch` of `check_combination`, on the kind.
unfoldable pub check_kind : Hand → ℕ → List ℕ → Run Bool
check_kind h kind comb =
    if kind == Kind.nothing
    then check_nothing h
    else if kind == Kind.high_card
    then (at comb 1 >>= check_high_card h)
    else if kind == Kind.pair
    then (at comb 1 >>= check_pair h)
    else if kind == Kind.two_pairs
    then (at comb 1 >>= λ a. at comb 2 >>= check_two_pairs h a)
    else if kind == Kind.set
    then (at comb 1 >>= check_three_of_a_kind h)
    else if kind == Kind.straight
    then (at comb 1 >>= check_straight h)
    else if kind == Kind.flush
    then (at comb 1 >>= λ a. at comb 2 >>= check_flush h a)
    else if kind == Kind.full_house
    then (at comb 1 >>= λ a. at comb 2 >>= check_full_house h a)
    else if kind == Kind.square
    then (at comb 1 >>= check_four_of_a_kind h)
    else if kind == Kind.straight_flush
    then (at comb 1 >>= λ a. at comb 2 >>= check_straight_flush h a)
    else fault

unfoldable pub check_combination : Hand → List ℕ → Run Bool
unfolding check_kind
check_combination h comb = do clever_asserts comb; kind ← front comb; check_kind h kind comb
