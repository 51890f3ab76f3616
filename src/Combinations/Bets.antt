-- ===== src/Combinations/Bets.antt =====
-- The bets of the game, as a type of their own: what a `vector<int>` of CardBluffServer/combinations.cpp
-- stands for, and when the cards contain it, said of the cards and not of the tables of `Hand`.
pub mod Rows
pub mod Checked
pub mod Tops
pub mod Suited
pub mod Found
pub mod Flushes
pub mod Houses
pub mod Ranking
pub mod Verdicts
pub mod Optimal
pub mod Height
pub mod Blocked
use card_bluff.Prelude.{
  ℕ, zero, suc, ◌+◌, ◌-◌, ◌≤◌, ◌<◌, ◌≢◌, Bool, true, false, not, List, [], ◌∷◌, ◌==◌, ltb, leb,
  ◌&&◌, if◌then◌else◌, map,
}
use card_bluff.Prelude.Int.{ℤ, pos, negsuc}
use card_bluff.Combinations.Kind
use card_bluff.Combinations.Spec.{has, count}

pub data Bet : Type 0 where
  nothing : Bet
  high_card pair set straight square : ℕ → Bet
  two_pairs full_house : ℕ → ℕ → Bet
  -- A rank and a suit.
  flush straight_flush : ℕ → ℕ → Bet

abbrev pub kind_of : Bet → ℕ
kind_of nothing = Kind.nothing
kind_of (high_card r) = Kind.high_card
kind_of (pair r) = Kind.pair
kind_of (two_pairs a b) = Kind.two_pairs
kind_of (set r) = Kind.set
kind_of (straight r) = Kind.straight
kind_of (flush r s) = Kind.flush
kind_of (full_house a b) = Kind.full_house
kind_of (square r) = Kind.square
kind_of (straight_flush r s) = Kind.straight_flush

-- The `vector<int>`.
abbrev pub encode : Bet → List ℕ
encode nothing = Kind.nothing ∷ []
encode (high_card r) = Kind.high_card ∷ r ∷ []
encode (pair r) = Kind.pair ∷ r ∷ []
encode (two_pairs a b) = Kind.two_pairs ∷ a ∷ b ∷ []
encode (set r) = Kind.set ∷ r ∷ []
encode (straight r) = Kind.straight ∷ r ∷ []
encode (flush r s) = Kind.flush ∷ r ∷ s ∷ []
encode (full_house a b) = Kind.full_house ∷ a ∷ b ∷ []
encode (square r) = Kind.square ∷ r ∷ []
encode (straight_flush r s) = Kind.straight_flush ∷ r ∷ s ∷ []

-- The ranks and suits exist, two ranks differ, and a straight reaches down to an ace at most.
abbrev pub IsProper : Bet → Type 0
IsProper nothing = Unit
IsProper (high_card r) = r < 13
IsProper (pair r) = r < 13
IsProper (two_pairs a b) = (a < 13) × (b < 13) × (a ≢ b)
IsProper (set r) = r < 13
IsProper (straight r) = (3 ≤ r) × (r < 13)
IsProper (flush r s) = (r < 13) × (s < 4)
IsProper (full_house a b) = (a < 13) × (b < 13) × (a ≢ b)
IsProper (square r) = r < 13
IsProper (straight_flush r s) = (3 ≤ r) × (r < 13) × (s < 4)

-- p holds of `n` numbers in a row.
abbrev pub consecutive : (ℕ → Bool) → ℕ → ℕ → Bool
consecutive p from zero = true
consecutive p from (suc n) = p from && consecutive p (suc from) n

-- Five ranks in a row up to the given one; under a five stands the ace.
abbrev pub five_in_a_row : (ℕ → Bool) → ℕ → Bool
five_in_a_row p top = if top == 3 then consecutive p 0 4 && p 12 else consecutive p (top - 4) 5

-- How many numbers below n satisfy p.
unfoldable pub tally : (ℕ → Bool) → ℕ → ℕ
tally p zero = 0
tally p (suc n) = if p n then suc (tally p n) else tally p n

abbrev pub present : List ℕ → ℕ → Bool
present v r = not (count v r == 0)

-- The cards contain the combination. A flush is named by its highest card.
abbrev pub holds : List ℕ → Bet → Bool
holds v nothing = true
holds v (high_card r) = present v r
holds v (pair r) = leb 2 (count v r)
holds v (two_pairs a b) = leb 2 (count v a) && leb 2 (count v b)
holds v (set r) = leb 3 (count v r)
holds v (straight r) = five_in_a_row (present v) r
holds v (flush r s) = has v s r && leb 5 (tally (has v s) (suc r))
holds v (full_house a b) = not (a == b) && leb 3 (count v a) && leb 2 (count v b)
holds v (square r) = leb 4 (count v r)
holds v (straight_flush r s) = five_in_a_row (has v s) r
