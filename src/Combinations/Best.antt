-- ===== src/Combinations/Best.antt =====
-- `find_best_combination`, `remove_suit`, `is_combination_nothing` and `is_best_combination` of
-- CardBluffServer/combinations.cpp.
use card_bluff.Prelude.{
  ℕ, Bool, false, List, [], ◌∷◌, Option, none, some, ◌==◌, if◌then◌else◌, list_eq, pop_back, Run,
  ok, ◌>>=◌, ◌>>◌, at,
}
use card_bluff.Combinations.Hand.{Hand}
use card_bluff.Combinations.Kind
use card_bluff.Combinations.Tables.{has_suit}
use card_bluff.Combinations.Check.{clever_asserts, front, check_combination}
use card_bluff.Combinations.Find.{
  find_best_straight_flush, find_best_four_of_a_kind, find_best_full_house, find_best_flush,
  find_best_straight, find_best_three_of_a_kind, find_best_two_pairs, find_best_pair,
  find_best_high_card,
}

-- One block of the function: if the search found something, return it; otherwise go on.
abbrev pub or_else : ℕ → Run (Option ℕ) → Run (List ℕ) → Run (List ℕ)
or_else kind m next = m >>= λ o. elim o [ some r ↦ ok (kind ∷ r ∷ []) | none ↦ next ]

abbrev pub or_else₂ : ℕ → Run (Option (ℕ × ℕ)) → Run (List ℕ) → Run (List ℕ)
or_else₂ kind m next = m >>= λ o. elim o [ some (a, b) ↦ ok (kind ∷ a ∷ b ∷ []) | none ↦ next ]

unfoldable pub find_best_combination : Hand → Run (List ℕ)
find_best_combination h = or_else₂ Kind.straight_flush (find_best_straight_flush h) (
    or_else Kind.square (find_best_four_of_a_kind h) (
      or_else₂ Kind.full_house (find_best_full_house h) (
        or_else₂ Kind.flush (find_best_flush h) (
          or_else Kind.straight (find_best_straight h) (
            or_else Kind.set (find_best_three_of_a_kind h) (
              or_else₂ Kind.two_pairs (find_best_two_pairs h) (
                or_else Kind.pair (find_best_pair h)
                  (or_else Kind.high_card (find_best_high_card h) (ok (Kind.nothing ∷ []))))))))))

unfoldable pub is_combination_nothing : List ℕ → Run Bool
is_combination_nothing comb = do clever_asserts comb; kind ← front comb; ok (kind == Kind.nothing)

unfoldable pub remove_suit : List ℕ → Run (List ℕ)
remove_suit comb = do
  clever_asserts comb
  kind ← front comb
  suited ← at has_suit kind
  ok (if suited then pop_back comb else comb)

unfoldable pub is_best_combination : Hand → List ℕ → Run Bool
unfolding list_eq
is_best_combination h comb = check_combination h comb >>= λ here.
    if here
    then (do
      best ← find_best_combination h
      best' ← remove_suit best
      comb' ← remove_suit comb
      ok (list_eq best' comb'))
    else ok false
