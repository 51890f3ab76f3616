-- ===== src/Combinations/Rank.antt =====
-- `rank_t`, `suit_t` and the sizes of CardBluffServer/combinations.h.
use card_bluff.Prelude.{ℕ}

-- `SUITS`.
abbrev pub suits : ℕ
suits = 4

-- `RANKS`.
abbrev pub ranks : ℕ
ranks = 13

abbrev pub two : ℕ
two = 0

abbrev pub three : ℕ
three = 1

abbrev pub four : ℕ
four = 2

abbrev pub five : ℕ
five = 3

abbrev pub six : ℕ
six = 4

abbrev pub seven : ℕ
seven = 5

abbrev pub eight : ℕ
eight = 6

abbrev pub nine : ℕ
nine = 7

abbrev pub ten : ℕ
ten = 8

abbrev pub jack : ℕ
jack = 9

abbrev pub queen : ℕ
queen = 10

abbrev pub king : ℕ
king = 11

abbrev pub ace : ℕ
ace = 12

abbrev pub hearts : ℕ
hearts = 0

abbrev pub diamonds : ℕ
diamonds = 1

abbrev pub spades : ℕ
spades = 2

abbrev pub clubs : ℕ
clubs = 3
