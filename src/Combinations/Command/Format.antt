-- ===== src/Combinations/Command/Format.antt =====
-- `format_m_command` of CardBluffServer/combinations.cpp: a bet as text.
use card_bluff.Prelude.{
  ℕ, zero, suc, ◌+◌, not, List, [], ◌∷◌, ◌++◌, if◌then◌else◌, drop, Run, ok, fault, ◌>>=◌, ◌>>◌, at,
  assert, codes,
}
use card_bluff.Combinations.Tables
use card_bluff.Combinations.Check.{clever_asserts, front}
use card_bluff.Combinations.Best.{is_combination_nothing}

-- The loop over the ranks, for `n` rounds from the given part of the combination.
unfoldable pub format_ranks : ℕ → List ℕ → Run (List ℕ)
format_ranks zero rest = ok []
format_ranks (suc n) [] = fault
format_ranks (suc n) (r ∷ rest) = do
  c ← at Tables.rank_to_wchar r
  text ← format_ranks n rest
  ok (c ∷ text)

unfoldable pub format_m_command : List ℕ → Run (List ℕ)
unfolding format_ranks
format_m_command comb = do
  clever_asserts comb
  is_nothing ← is_combination_nothing comb
  assert (not is_nothing)
  kind ← front comb
  number_of_ranks ← at Tables.how_many_ranks kind
  c ← at Tables.combination_to_wchar kind
  ranks ← format_ranks number_of_ranks (drop 1 comb)
  suited ← at Tables.has_suit kind
  let text = codes "/m " ++ c ∷ ranks
  if suited
      then (do
        s ← at comb (number_of_ranks + 1)
        d ← at Tables.suit_to_wchar s
        ok (text ++ d ∷ []))
      else ok text
