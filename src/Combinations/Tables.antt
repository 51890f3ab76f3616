-- ===== src/Combinations/Tables.antt =====
-- The constant tables at the top of CardBluffServer/combinations.cpp.
use card_bluff.Prelude.{
  ℕ, Bool, true, false, List, [], ◌∷◌, Option, none, some, ◌==◌, if◌then◌else◌,
}
use card_bluff.Combinations.Kind
use card_bluff.Combinations.Rank

-- `COMBINATION_SIZE`, indexed by the kind.
abbrev pub combination_size : List ℕ
combination_size = 1 ∷ 2 ∷ 2 ∷ 3 ∷ 2 ∷ 2 ∷ 3 ∷ 3 ∷ 2 ∷ 3 ∷ []

-- `HAS_SUIT`.
abbrev pub has_suit : List Bool
has_suit = false ∷ false ∷ false ∷ false ∷ false ∷ false ∷ true ∷ false ∷ false ∷ true ∷ []

-- `IS_STRAIGHT_TYPE`.
abbrev pub is_straight_type : List Bool
is_straight_type = false ∷ false ∷ false ∷ false ∷ false ∷ true ∷ false ∷ false ∷ false ∷ true ∷ []

-- `IS_FLUSH_TYPE`.
abbrev pub is_flush_type : List Bool
is_flush_type = false ∷ false ∷ false ∷ false ∷ false ∷ false ∷ true ∷ false ∷ false ∷ false ∷ []

-- `HOW_MANY_RANKS`.
abbrev pub how_many_ranks : List ℕ
how_many_ranks = 0 ∷ 1 ∷ 1 ∷ 2 ∷ 1 ∷ 1 ∷ 1 ∷ 2 ∷ 1 ∷ 1 ∷ []

-- `find` in an `unordered_map` whose keys are distinct.
unfoldable pub find : List (ℕ × ℕ) → ℕ → Option ℕ
find [] c = none
find ((k, v) ∷ m) c = if k == c then some v else find m c

-- `WCHAR_TO_RANK`.
abbrev pub wchar_to_rank : List (ℕ × ℕ)
wchar_to_rank =
    (b'2', Rank.two)
    ∷ (b'3', Rank.three)
    ∷ (b'4', Rank.four)
    ∷ (b'5', Rank.five)
    ∷ (b'6', Rank.six)
    ∷ (b'7', Rank.seven)
    ∷ (b'8', Rank.eight)
    ∷ (b'9', Rank.nine)
    ∷ (b'0', Rank.ten)
    ∷ (b'J', Rank.jack)
    ∷ (b'j', Rank.jack)
    ∷ (b'Q', Rank.queen)
    ∷ (b'q', Rank.queen)
    ∷ (b'K', Rank.king)
    ∷ (b'k', Rank.king)
    ∷ (b'A', Rank.ace)
    ∷ (b'a', Rank.ace)
    ∷ []

-- `RANK_TO_WCHAR`.
abbrev pub rank_to_wchar : List ℕ
rank_to_wchar =
    b'2' ∷ b'3' ∷ b'4' ∷ b'5' ∷ b'6' ∷ b'7' ∷ b'8' ∷ b'9' ∷ b'0' ∷ b'j' ∷ b'q' ∷ b'k' ∷ b'a' ∷ []

-- `WCHAR_TO_SUIT`.
abbrev pub wchar_to_suit : List (ℕ × ℕ)
wchar_to_suit =
    (b'0', Rank.hearts) ∷ (b'1', Rank.diamonds) ∷ (b'2', Rank.spades) ∷ (b'3', Rank.clubs) ∷ []

-- `SUIT_TO_WCHAR`.
abbrev pub suit_to_wchar : List ℕ
suit_to_wchar = b'0' ∷ b'1' ∷ b'2' ∷ b'3' ∷ []

-- `WCHAR_TO_COMBINATION`.
abbrev pub wchar_to_combination : List (ℕ × ℕ)
wchar_to_combination =
    (b'0', Kind.high_card)
    ∷ (b'1', Kind.pair)
    ∷ (b'2', Kind.two_pairs)
    ∷ (b'3', Kind.set)
    ∷ (b'4', Kind.straight)
    ∷ (b'5', Kind.flush)
    ∷ (b'6', Kind.full_house)
    ∷ (b'7', Kind.square)
    ∷ (b'8', Kind.straight_flush)
    ∷ []

-- `COMBINATION_TO_WCHAR`.
abbrev pub combination_to_wchar : List ℕ
combination_to_wchar = b'X' ∷ b'0' ∷ b'1' ∷ b'2' ∷ b'3' ∷ b'4' ∷ b'5' ∷ b'6' ∷ b'7' ∷ b'8' ∷ []
