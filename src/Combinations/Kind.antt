-- ===== src/Combinations/Kind.antt =====
-- `combination_t` of CardBluffServer/combinations.h. A combination is a `vector<int>` whose first
-- element is one of these, so they are numbers here as there.
use card_bluff.Prelude.{ℕ}

abbrev pub nothing : ℕ
nothing = 0

abbrev pub high_card : ℕ
high_card = 1

abbrev pub pair : ℕ
pair = 2

abbrev pub two_pairs : ℕ
two_pairs = 3

abbrev pub set : ℕ
set = 4

abbrev pub straight : ℕ
straight = 5

abbrev pub flush : ℕ
flush = 6

abbrev pub full_house : ℕ
full_house = 7

abbrev pub square : ℕ
square = 8

abbrev pub straight_flush : ℕ
straight_flush = 9

-- `COMBINATIONS`.
abbrev pub count : ℕ
count = 10
