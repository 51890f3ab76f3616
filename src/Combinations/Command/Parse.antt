-- ===== src/Combinations/Command/Parse.antt =====
-- `parse_m_command` of CardBluffServer/combinations.cpp: a bet read from the text after "/m".
use card_bluff.Prelude.{
  ℕ, zero, suc, ◌+◌, Bool, true, false, List, [], ◌∷◌, ◌++◌, none, some, ◌==◌, ltb, if◌then◌else◌,
  get_or, drop, codes,
}
use card_bluff.Combinations.Kind
use card_bluff.Combinations.Rank
use card_bluff.Combinations.Tables

-- The texts that `parse_m_command` returns, each with what it appends; `accepted` is the empty text.
pub data Transcript : Type 0 where
  accepted : Transcript
  missing_combination missing_rank missing_suit : Transcript
  incorrect_combination incorrect_rank : ℕ → Transcript
  incorrect_suit : ℕ → Transcript
  -- INCORRECT_SUIT again, with the rest of the command in double quotes.
  excess : List ℕ → Transcript
  little_straight_rank little_flush_rank coinciding_ranks : ℕ → Transcript

abbrev quoted : ℕ → List ℕ
quoted c = b'\'' ∷ c ∷ b'\'' ∷ []

-- The text itself.
unfoldable pub transcript_text : Transcript → List ℕ
transcript_text accepted = []
transcript_text missing_combination = codes "missing combination identifier"
transcript_text missing_rank = codes "missing rank identifier"
transcript_text missing_suit = codes "missing suit identifier"
transcript_text (incorrect_combination c) = codes "incorrect combination identifier: " ++ quoted c
transcript_text (incorrect_rank c) = codes "incorrect rank identifier: " ++ quoted c
transcript_text (incorrect_suit c) = codes "incorrect suit identifier: " ++ quoted c
transcript_text (excess rest) = codes "incorrect suit identifier: " ++ b'"' ∷ rest ++ b'"' ∷ []
transcript_text (little_straight_rank c) =
    codes "rank should be at least 5, but it equals: " ++ quoted c
transcript_text (little_flush_rank c) =
    codes "rank should be at least 7, but it equals: " ++ quoted c
transcript_text (coinciding_ranks c) = codes "ranks of pair both equal: " ++ quoted c

-- A piece of the parser: what it reads, or the text to return.
pub data Parsed {ℓ} (A : Type ℓ) : Type ℓ where
  parsed : A → Parsed A
  refused : Transcript → Parsed A

infixl 5 ◌>>=◌ ◌>>◌
abbrev pub ◌>>=◌ {ℓ κ} : {A : Type ℓ} {B : Type κ} → Parsed A → (A → Parsed B) → Parsed B
parsed a >>= f = f a
refused t >>= f = refused t

abbrev ◌>>◌ {ℓ} : {B : Type ℓ} → Parsed (Unit {0}) → Parsed B → Parsed B
m >> k = m >>= λ _. k

abbrev pub lookup_or : List (ℕ × ℕ) → ℕ → Transcript → Parsed ℕ
lookup_or table c t = elim (Tables.find table c) [ none ↦ refused t | some v ↦ parsed v ]

-- The first symbol: the kind.
unfoldable pub parse_kind : List ℕ → Parsed ℕ
parse_kind [] = refused missing_combination
parse_kind (c ∷ text) = lookup_or Tables.wchar_to_combination c (incorrect_combination c)

-- The loop over the ranks, for `n` rounds on the rest of the command.
unfoldable pub parse_ranks : ℕ → List ℕ → Parsed (List ℕ)
parse_ranks zero text = parsed []
parse_ranks (suc n) [] = refused missing_rank
parse_ranks (suc n) (c ∷ text) = lookup_or Tables.wchar_to_rank c (incorrect_rank c) >>= λ r.
    parse_ranks n text >>= λ rs. parsed (r ∷ rs)

-- The suit, where the kind has one.
unfoldable pub parse_suit : Bool → List ℕ → Parsed (List ℕ)
parse_suit false text = parsed []
parse_suit true [] = refused missing_suit
parse_suit true (c ∷ text) =
    lookup_or Tables.wchar_to_suit c (incorrect_suit c) >>= λ s. parsed (s ∷ [])

-- `if (command_length > n) return ...`, with the rest of the command from n on.
unfoldable pub parse_end : List ℕ → Parsed (Unit {0})
parse_end [] = parsed tt
parse_end (c ∷ text) = refused (excess (c ∷ text))

-- The tests of the ranks. `symbol` is `command[1]`, and a and b are `combination[1]` and [2].
unfoldable pub check_ranks : ℕ → ℕ → ℕ → ℕ → Parsed (Unit {0})
check_ranks kind symbol a b =
    if get_or Tables.is_straight_type kind false
    then if ltb a Rank.five then refused (little_straight_rank symbol) else parsed tt
    else if get_or Tables.is_flush_type kind false
    then if ltb a Rank.seven then refused (little_flush_rank symbol) else parsed tt
    else if kind == Kind.two_pairs
    then if a == b then refused (coinciding_ranks symbol) else parsed tt
    else parsed tt

-- `sort(combination.begin() + 1, combination.begin() + 3)`, where the kind is `TWO_PAIRS`.
abbrev pub sort_two : List ℕ → List ℕ
sort_two (k ∷ a ∷ b ∷ rest) = if ltb b a then k ∷ b ∷ a ∷ rest else k ∷ a ∷ b ∷ rest
sort_two comb = comb

abbrev pub bit : Bool → ℕ
bit true = 1
bit false = 0

-- `parse_m_command`. `parsed` is the empty text, with the combination; the tables are indexed by a
-- kind from `WCHAR_TO_COMBINATION`, and `command[1]` and `combination[1]` are read where there is one.
unfoldable pub parse_m_command : List ℕ → Parsed (List ℕ)
unfolding check_ranks parse_kind parse_ranks parse_suit parse_end
parse_m_command command = do
  kind ← parse_kind command
  let number_of_ranks = get_or Tables.how_many_ranks kind 0
  let number_of_suits = get_or Tables.has_suit kind false
  ranks ← parse_ranks number_of_ranks (drop 1 command)
  suit ← parse_suit number_of_suits (drop (1 + number_of_ranks) command)
  parse_end (drop (1 + number_of_ranks + bit number_of_suits) command)
  let comb = kind ∷ ranks ++ suit
  check_ranks kind (get_or command 1 0) (get_or comb 1 0) (get_or comb 2 0)
  parsed (if kind == Kind.two_pairs then sort_two comb else comb)
