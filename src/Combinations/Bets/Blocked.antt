-- ===== src/Combinations/Bets/Blocked.antt =====
-- What `is_best_combination` of CardBluffServer/combinations.cpp says of two pairs that a player names.
use card_bluff.Prelude.{
  ℕ, ◌<◌, ◌≡◌, refl, sym, true, false, List, [], ◌∷◌, ok, ◌>>=◌, arith, Bool-cases, inl, inr,
  list_eq, lt-cases,
}
use card_bluff.Combinations.Hand.{hand_of}
use card_bluff.Combinations.Spec.{IsDealt}
use card_bluff.Combinations.Build.{hand_of-described}
use card_bluff.Combinations.Check.{clever_asserts}
use card_bluff.Combinations.Order.{less_combination, lexicographic, comparison_key}
use card_bluff.Combinations.Best.{remove_suit, is_best_combination}
use card_bluff.Combinations.Bets.{Bet, encode, holds}
use card_bluff.Combinations.Bets.Checked.{check_combination-holds}
use card_bluff.Combinations.Bets.Ranking.{IsBest}
use card_bluff.Combinations.Bets.Optimal.{find_best_combination-IsBest}

two_pairs-less :
    (x y : ℕ)
    → x < y
    → less_combination (encode (Bet.two_pairs x y)) (encode (Bet.two_pairs y x)) ≡ ok true
unfolding less_combination clever_asserts comparison_key lexicographic
two_pairs-less x y l = ground arith

-- The best two pairs come with the higher rank first.
IsBest-descends : (v : List ℕ) (x y : ℕ) → IsBest v (Bet.two_pairs x y) → y < x
IsBest-descends v x y h = elim (lt-cases y x) [
  | inl down ↦ down
  | inr up ↦
      let below : x < y = omega (arith, h.0, up) in
      let swapped =
        h.2 (Bet.two_pairs y x) (h.0.1, h.0.0, λ e. h.0.2 (sym e)) (ground (arith, h.1)) in
      let rises = two_pairs-less x y below in absurd (ground arith)
]

abbrev Differs : Bet → ℕ → ℕ → Type 0
Differs c a b = (remove_suit (encode c) >>= λ l. ok (list_eq l (3 ∷ a ∷ b ∷ []))) ≡ ok false

IsBest-Differs : (v : List ℕ) (a b : ℕ) (c : Bet) → a < b → IsBest v c → Differs c a b
unfolding remove_suit clever_asserts list_eq
IsBest-Differs v a b (Bet.two_pairs x y) l h = ground (arith, IsBest-descends v x y h)
IsBest-Differs v a b Bet.nothing l h = refl
IsBest-Differs v a b _ l h = refl

two_pairs-kept : (a b : ℕ) → remove_suit (3 ∷ a ∷ b ∷ []) ≡ ok (3 ∷ a ∷ b ∷ [])
unfolding remove_suit clever_asserts
two_pairs-kept a b = refl

-- For cards that are of the pack and all different, and two pairs as `parse_m_command` gives them, with
-- the lower rank first, `is_best_combination` returns false, also when they are the best combination.
pub is_best_combination-two_pairs :
    (v : List ℕ) (a b : ℕ)
    → IsDealt v
    → a < b
    → b < 13
    → (hand_of v >>= λ h. is_best_combination h (encode (Bet.two_pairs a b))) ≡ ok false
unfolding is_best_combination
is_best_combination-two_pairs v a b dealt l m =
    let (c, found, best) = find_best_combination-IsBest v in
    let judged = check_combination-holds v (Bet.two_pairs a b) (omega arith, m, omega arith) in
    elim (Bool-cases (holds v (Bet.two_pairs a b))) [
      | inr away ↦ rw (hand_of-described v dealt, judged, away) refl
      | inl here ↦
          rw (hand_of-described v dealt, judged, here, found, two_pairs-kept a b)
            (IsBest-Differs v a b c l best)
    ]
