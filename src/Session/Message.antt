-- ===== src/Session/Message.antt =====
-- The tests that `client_to_server` of CardBluffServer/main.cpp makes on a message.
use card_bluff.Prelude.{
  ℕ, ◌-◌, ◌%◌, ◌^◌, List, [], ◌∷◌, Option, none, some, ◌==◌, if◌then◌else◌, ltb, Run, ok, fault,
}
use card_bluff.Database.{skip_spaces, scan_digits, starts_with_digit}

-- `wcsncmp(message, prefix, length of prefix) == 0`, and then the text behind the prefix.
unfoldable pub behind : List ℕ → List ℕ → Option (List ℕ)
behind [] text = some text
behind (p ∷ prefix) [] = none
behind (p ∷ prefix) (c ∷ text) = let rest = behind prefix text in if c == p then rest else none

abbrev pub top_lines_default : ℕ
top_lines_default = 10

abbrev pub top_lines_max : ℕ
top_lines_max = 100

-- `swscanf(text, "%u", &n)`: the number, of 32 bits; no number; or a text that ends before one, where
-- the result is EOF.
pub data Scanned : Type 0 where
  number : ℕ → Scanned
  no_match end_of_text : Scanned

abbrev pub word : ℕ
word = 2 ^ 32

abbrev pub scan_unsigned : (ℕ → ℕ) → List ℕ → Scanned
unfolding scan_digits
scan_unsigned sign [] = end_of_text
scan_unsigned sign (c ∷ s) =
    if starts_with_digit (c ∷ s) then number (sign (scan_digits 0 (c ∷ s)) % word) else no_match

abbrev pub scan_signed_u : List ℕ → Scanned
unfolding scan_digits
scan_signed_u [] = end_of_text
scan_signed_u (c ∷ s) =
    if c == b'-'
    then scan_unsigned (λ n. word - n % word) s
    else if c == b'+'
    then scan_unsigned (λ n. n) s
    else scan_unsigned (λ n. n) (c ∷ s)

unfoldable pub scan_u : List ℕ → Scanned
unfolding scan_digits skip_spaces
scan_u s = scan_signed_u (skip_spaces s)

-- The number of lines for "/top". `n` is read uninitialised after EOF, whose value is not 0.
unfoldable pub lines_for : List ℕ → Run ℕ
unfolding scan_u
lines_for text = elim (scan_u text) [
  | number n ↦ ok (if n == 0 then 1 else if ltb top_lines_max n then top_lines_max else n)
  | no_match ↦ ok top_lines_default
  | end_of_text ↦ fault
]
