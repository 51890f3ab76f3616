-- ===== src/Combinations/Order.antt =====
-- `less_combination` of CardBluffServer/combinations.cpp: the order in which the bets must rise.
use card_bluff.Prelude.{
  ℕ, zero, suc, Bool, true, false, List, [], ◌∷◌, ◌==◌, if◌then◌else◌, map, pop_back, Run, ok,
  ◌>>=◌, ◌>>◌, at,
}
use card_bluff.Prelude.Int.{ℤ, pos, negsuc, ltb_ℤ}
use card_bluff.Combinations.Kind
use card_bluff.Combinations.Tables.{has_suit}
use card_bluff.Combinations.Check.{clever_asserts, front}

abbrev pub negate : ℕ → ℤ
negate zero = pos 0
negate (suc n) = negsuc n

-- `u.back() = -u.back()`, on a vector with no negative element.
abbrev pub negate_back : List ℕ → List ℤ
negate_back [] = []
negate_back (x ∷ []) = negate x ∷ []
negate_back (x ∷ y ∷ u) = pos x ∷ negate_back (y ∷ u)

-- What `less_combination` makes of each of its two arguments.
unfoldable pub comparison_key : List ℕ → Run (List ℤ)
comparison_key u = do
  kind ← front u
  suited ← at has_suit kind
  let v = if suited then pop_back u else u
  ok (if kind == Kind.flush then negate_back v else map pos v)

-- `u < v` on `vector<int>`.
unfoldable pub lexicographic : List ℤ → List ℤ → Bool
lexicographic [] [] = false
lexicographic [] (y ∷ v) = true
lexicographic (x ∷ u) [] = false
lexicographic (x ∷ u) (y ∷ v) =
    let rest = lexicographic u v in if ltb_ℤ x y then true else if ltb_ℤ y x then false else rest

unfoldable pub less_combination : List ℕ → List ℕ → Run Bool
unfolding comparison_key lexicographic
less_combination u v = do
  clever_asserts u
  clever_asserts v
  a ← comparison_key u
  b ← comparison_key v
  ok (lexicographic a b)
