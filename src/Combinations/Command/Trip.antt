-- ===== src/Combinations/Command/Trip.antt =====
-- `format_m_command` of CardBluffServer/combinations.cpp writes what `parse_m_command` reads back.
use card_bluff.Prelude.{
  ℕ, zero, suc, ◌<◌, ◌≡◌, refl, Bool, true, false, List, [], ◌∷◌, ◌++◌, none, some, ◌==◌, ◌&&◌,
  ◌||◌, drop, codes, length, ok, at, arith, inl, inr, get_or, lt-cases, le→ltb, ne→==,
}
use card_bluff.Combinations.Tables
use card_bluff.Combinations.Check.{clever_asserts}
use card_bluff.Combinations.Best.{is_combination_nothing}
use card_bluff.Combinations.Bets.{Bet, encode}
use card_bluff.Combinations.Command.Parse.{
  parsed, lookup_or, parse_kind, parse_ranks, parse_suit, parse_end, check_ranks, parse_m_command,
}
use card_bluff.Combinations.Command.Format.{format_ranks, format_m_command}
use card_bluff.Combinations.Command.Proper.{IsAccepted}

all_below : (ℕ → Bool) → ℕ → Bool
all_below p zero = true
all_below p (suc n) = p n && all_below p n

all_below-lem : (p : ℕ → Bool) (n r : ℕ) → all_below p n ≡ true → r < n → p r ≡ true
unfolding all_below
all_below-lem p zero r all l = absurd (omega arith)
all_below-lem p (suc n) r all l = elim (lt-cases r n) [
  | inl below ↦ all_below-lem p n r (ground arith) below
  | inr top ↦ let e : r ≡ n = omega arith in rw e (ground arith)
]

at-get_or : (xs : List ℕ) (i d : ℕ) → i < length xs → at xs i ≡ ok (get_or xs i d)
at-get_or [] i d l = absurd (omega arith)
at-get_or (x ∷ xs) zero d l = refl
at-get_or (x ∷ xs) (suc i) d l = at-get_or xs i d (omega arith)

-- The symbol that one table gives for a number stands for that number in the other table.
returns_to : List (ℕ × ℕ) → List ℕ → ℕ → Bool
returns_to table symbols r = elim (Tables.find table (get_or symbols r 0)) [
  | none ↦ false
  | some q ↦ q == r
]

returns_to-find :
    (table : List (ℕ × ℕ)) (symbols : List ℕ) (r : ℕ)
    → returns_to table symbols r ≡ true
    → Tables.find table (get_or symbols r 0) ≡ some r
unfolding returns_to
returns_to-find table symbols r h = ground arith

abbrev Symbol : List (ℕ × ℕ) → List ℕ → ℕ → Type 0
Symbol table symbols r = (c : ℕ) × (at symbols r ≡ ok c) × (Tables.find table c ≡ some r)

rank-Symbol : (r : ℕ) → r < 13 → Symbol Tables.wchar_to_rank Tables.rank_to_wchar r
unfolding all_below returns_to Tables.find
rank-Symbol r l = (
  _,
  at-get_or Tables.rank_to_wchar r 0 l,
  returns_to-find Tables.wchar_to_rank Tables.rank_to_wchar r
      (all_below-lem (returns_to Tables.wchar_to_rank Tables.rank_to_wchar) 13 r refl l),
)

suit-Symbol : (s : ℕ) → s < 4 → Symbol Tables.wchar_to_suit Tables.suit_to_wchar s
unfolding all_below returns_to Tables.find
suit-Symbol s l = (
  _,
  at-get_or Tables.suit_to_wchar s 0 l,
  returns_to-find Tables.wchar_to_suit Tables.suit_to_wchar s
      (all_below-lem (returns_to Tables.wchar_to_suit Tables.suit_to_wchar) 4 s refl l),
)

abbrev pub Trips : Bet → Type 0
Trips b =
    (text : List ℕ) × (format_m_command (encode b) ≡ ok text)
    × (parse_m_command (drop 3 text) ≡ parsed (encode b))

kind_symbol :
    (k : ℕ) (text : List ℕ)
    → (k == 0) ≡ false
    → k < 10
    → parse_kind (get_or Tables.combination_to_wchar k 0 ∷ text) ≡ parsed k
unfolding parse_kind all_below returns_to Tables.find
kind_symbol k text h l =
    rw
      (
        returns_to-find Tables.wchar_to_combination Tables.combination_to_wchar k (
            ground (
              arith,
              all_below-lem
                  (λ k.
                    k == 0 || returns_to Tables.wchar_to_combination Tables.combination_to_wchar k)
                  10 k refl l,
            )),
        lookup_or,
      )
      refl

read_one :
    (c : ℕ) {r : ℕ} (text : List ℕ)
    → Tables.find Tables.wchar_to_rank c ≡ some r
    → parse_ranks 1 (c ∷ text) ≡ parsed (r ∷ [])
unfolding parse_ranks
read_one c text f = rw (f, lookup_or) refl

read_two :
    (c d : ℕ) {a b : ℕ}
    → Tables.find Tables.wchar_to_rank c ≡ some a
    → Tables.find Tables.wchar_to_rank d ≡ some b
    → parse_ranks 2 (c ∷ d ∷ []) ≡ parsed (a ∷ b ∷ [])
unfolding parse_ranks
read_two c d f g = rw (f, g, lookup_or) refl

read_suit :
    (d : ℕ) {s : ℕ}
    → Tables.find Tables.wchar_to_suit d ≡ some s
    → parse_suit true (d ∷ []) ≡ parsed (s ∷ [])
unfolding parse_suit
read_suit d f = rw (f, lookup_or) refl

abbrev command_text : ℕ → List ℕ → List ℕ
command_text k rest = codes "/m " ++ k ∷ rest

-- `format_m_command` returns a text for every bet that a player can make, and `parse_m_command` reads
-- that bet from what stands after "/m ".
pub parse_m_command-format_m_command : (b : Bet) → IsAccepted b → Trips b
unfolding format_m_command parse_m_command clever_asserts is_combination_nothing format_ranks
    parse_suit parse_end check_ranks
parse_m_command-format_m_command Bet.nothing h = absurd h
parse_m_command-format_m_command (Bet.high_card r) h =
    let (c, e, f) = rank-Symbol r h in
    (
      command_text b'0' (c ∷ []),
      rw e refl,
      rw (kind_symbol 1 _ refl (omega arith), read_one c [] f) refl,
    )
parse_m_command-format_m_command (Bet.pair r) h =
    let (c, e, f) = rank-Symbol r h in
    (
      command_text b'1' (c ∷ []),
      rw e refl,
      rw (kind_symbol 2 _ refl (omega arith), read_one c [] f) refl,
    )
parse_m_command-format_m_command (Bet.set r) h =
    let (c, e, f) = rank-Symbol r h in
    (
      command_text b'3' (c ∷ []),
      rw e refl,
      rw (kind_symbol 4 _ refl (omega arith), read_one c [] f) refl,
    )
parse_m_command-format_m_command (Bet.square r) h =
    let (c, e, f) = rank-Symbol r h in
    (
      command_text b'7' (c ∷ []),
      rw e refl,
      rw (kind_symbol 8 _ refl (omega arith), read_one c [] f) refl,
    )
parse_m_command-format_m_command (Bet.straight r) h =
    let (c, e, f) = rank-Symbol r h.1 in
    (
      command_text b'4' (c ∷ []),
      rw e refl,
      rw (kind_symbol 5 _ refl (omega arith), read_one c [] f, le→ltb 3 r h.0) refl,
    )
parse_m_command-format_m_command (Bet.two_pairs a b) h =
    let (c, e, f) = rank-Symbol a (omega (arith, h.0, h.1)) in
    let (d, e', f') = rank-Symbol b h.1 in
    (
      command_text b'2' (c ∷ d ∷ []),
      rw (e, e') refl,
      rw
          (
            kind_symbol 3 _ refl (omega arith),
            read_two c d f f',
            ne→== a b (omega (arith, h.0)),
            le→ltb a b (omega (arith, h.0)),
          )
          refl,
    )
parse_m_command-format_m_command (Bet.full_house a b) h =
    let (c, e, f) = rank-Symbol a h.0 in
    let (d, e', f') = rank-Symbol b h.1 in
    (
      command_text b'6' (c ∷ d ∷ []),
      rw (e, e') refl,
      rw (kind_symbol 7 _ refl (omega arith), read_two c d f f') refl,
    )
parse_m_command-format_m_command (Bet.flush r s) h =
    let (c, e, f) = rank-Symbol r h.1 in
    let (d, e', f') = suit-Symbol s h.2 in
    (
      command_text b'5' (c ∷ d ∷ []),
      rw (e, e') refl,
      rw (kind_symbol 6 _ refl (omega arith), read_one c (d ∷ []) f, read_suit d f', le→ltb 5 r h.0)
          refl,
    )
parse_m_command-format_m_command (Bet.straight_flush r s) h =
    let (c, e, f) = rank-Symbol r h.1 in
    let (d, e', f') = suit-Symbol s h.2 in
    (
      command_text b'8' (c ∷ d ∷ []),
      rw (e, e') refl,
      rw (kind_symbol 9 _ refl (omega arith), read_one c (d ∷ []) f, read_suit d f', le→ltb 3 r h.0)
          refl,
    )
