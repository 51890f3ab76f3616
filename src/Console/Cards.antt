-- ===== src/Console/Cards.antt =====
-- `output_win_addwstr_colored` of CardBluffClient/text_io.cpp: how a message is shown, and how the cards
-- are read out of a "CARDS:" message.
use card_bluff.Prelude.{
  ℕ, zero, suc, ◌-◌, ◌%◌, List, [], ◌∷◌, Option, none, some, ◌==◌, ◌&&◌, if◌then◌else◌, leb, drop,
}
use card_bluff.Database.{skip_spaces, scan_digits, starts_with_digit}
use card_bluff.Session.Message.{scan_u, Scanned, number, no_match, end_of_text, word}

-- `wcstok_r` with ":". The token, and the text behind the delimiter that ends it.
unfoldable pub skip_colons : List ℕ → List ℕ
skip_colons [] = []
skip_colons (c ∷ s) = let rest = skip_colons s in if c == b':' then rest else c ∷ s

unfoldable pub up_to_colon : List ℕ → List ℕ × List ℕ
up_to_colon [] = ([], [])
up_to_colon (c ∷ s) =
    let rest = up_to_colon s in if c == b':' then ([], s) else (c ∷ rest.0, rest.1)

abbrev pub token_of : List ℕ → Option (List ℕ × List ℕ)
token_of [] = none
token_of (c ∷ s) = some (up_to_colon (c ∷ s))

unfoldable pub wcstok_r : List ℕ → Option (List ℕ × List ℕ)
unfolding skip_colons up_to_colon
wcstok_r s = token_of (skip_colons s)

-- The digits at the start of a text are passed over.
unfoldable pub drop_digits : List ℕ → List ℕ
drop_digits [] = []
drop_digits (c ∷ s) = let rest = drop_digits s in if leb b'0' c && leb c b'9' then rest else c ∷ s

abbrev pub comma_char : ℕ → List ℕ → Option (ℕ × ℕ)
comma_char suit [] = none
comma_char suit (c ∷ []) = none
comma_char suit (c ∷ value ∷ s) = if c == b',' then some (suit, value) else none

abbrev pub unsigned_card : (ℕ → ℕ) → List ℕ → Option (ℕ × ℕ)
unfolding scan_digits drop_digits
unsigned_card sign text =
    if starts_with_digit text
    then comma_char (sign (scan_digits 0 text) % word) (drop_digits text)
    else none

unfoldable pub signed_card : List ℕ → Option (ℕ × ℕ)
unfolding scan_digits drop_digits
signed_card [] = none
signed_card (c ∷ s) =
    if c == b'-'
    then unsigned_card (λ n. word - n % word) s
    else if c == b'+'
    then unsigned_card (λ n. n) s
    else unsigned_card (λ n. n) (c ∷ s)

-- `swscanf(tok, "%u,%lc", &suit, &value)`.
unfoldable pub scan_card : List ℕ → Option (ℕ × ℕ)
unfolding skip_spaces signed_card
scan_card tok = signed_card (skip_spaces tok)

-- The loop over the cards; the last token goes on to the end of the text. The result has the text from
-- the last token on.
unfoldable pub read_cards : ℕ → List ℕ → Option (List (ℕ × ℕ) × List ℕ)
unfolding scan_card wcstok_r
read_cards zero st = none
read_cards (suc zero) st = elim (scan_card st) [ none ↦ none | some card ↦ some (card ∷ [], st) ]
read_cards (suc (suc i)) st = elim (wcstok_r st) [
  | none ↦ none
  | some (tok, rest) ↦ elim (scan_card tok) [
    | none ↦ none
    | some card ↦ elim (read_cards (suc i) rest) [
      | none ↦ none
      | some (cards, last) ↦ some (card ∷ cards, last)
    ]
  ]
]

-- The cards of a "CARDS:" message, each with its suit and its character, and the text behind them;
-- `none` is the return of ERR. Without cards the text begins three characters behind the number's start.
unfoldable pub counted_cards : List ℕ → List ℕ → Scanned → Option (List (ℕ × ℕ) × List ℕ)
unfolding read_cards skip_colons
counted_cards st rest end_of_text = none
counted_cards st rest no_match = none
counted_cards st rest (number zero) = some ([], drop 3 (skip_colons st))
counted_cards st rest (number (suc n)) = elim (read_cards (suc n) rest) [
  | none ↦ none
  | some (cards, last) ↦ some (cards, drop 3 last)
]

unfoldable pub after_prefix : List ℕ → Option (List (ℕ × ℕ) × List ℕ)
unfolding counted_cards wcstok_r scan_u
after_prefix st = elim (wcstok_r st) [
  | none ↦ none
  | some (tok, rest) ↦ counted_cards st rest (scan_u tok)
]

unfoldable pub parse_cards : List ℕ → Option (List (ℕ × ℕ) × List ℕ)
unfolding after_prefix wcstok_r
parse_cards str = elim (wcstok_r str) [ none ↦ none | some (prefix, st) ↦ after_prefix st ]
