-- ===== src/Text.antt =====
-- The text helpers of CardBluffServer/util/util.cpp. A `std::string` and a `std::wstring` are lists of
-- character codes; `converter.from_bytes` is the identity on the ASCII texts of `ll_to_string`.
use mathlib.Core.List.{reverse}
use card_bluff.Prelude.{
  ℕ, zero, suc, ◌+◌, ◌/◌, ◌%◌, Bool, true, false, not, List, [], ◌∷◌, ◌++◌, ◌==◌, ◌&&◌, ◌||◌,
  if◌then◌else◌, codes,
}
use card_bluff.Prelude.Int.{ℤ, pos, negsuc, pos_part, neg_part}

abbrev pub base : ℕ
base = 10

-- `while (a) { ans.push_back('0' + abs(a % BASE)); a /= BASE; }` on the magnitude of a (C++ rounds
-- towards 0), with fuel. The digits come lowest first.
unfoldable pub digits : ℕ → ℕ → List ℕ
digits zero a = []
digits (suc n) a = let rest = digits n (a / base) in if a == 0 then [] else (b'0' + a % base) ∷ rest

abbrev is_negative : ℤ → Bool
is_negative (pos n) = false
is_negative (negsuc n) = true

abbrev sign : Bool → Bool → List ℕ
sign true plus = b'-' ∷ []
sign false true = b'+' ∷ []
sign false false = []

-- A number has at most as many digits as its value, so that much fuel is enough.
unfoldable pub ll_to_string : ℤ → Bool → List ℕ
unfolding digits
ll_to_string a plus_sign =
    let size = pos_part a + neg_part a in
    if size == 0 then codes "0" else reverse (digits size size ++ sign (is_negative a) plus_sign)

unfoldable pub remove_space_characters : List ℕ → List ℕ
remove_space_characters [] = []
remove_space_characters (c ∷ s) =
    let rest = remove_space_characters s in
    if not (c == b' ') && not (c == b'\t') then c ∷ rest else rest

-- `SPECIAL_CHARS`.
abbrev pub is_special : ℕ → Bool
is_special c = c == b'%' || c == b'\\'

unfoldable pub escape_special_chars : List ℕ → List ℕ
escape_special_chars [] = []
escape_special_chars (c ∷ s) =
    let rest = escape_special_chars s in if is_special c then b'\\' ∷ c ∷ rest else c ∷ rest

-- `COLOR_ESCAPE`.
unfoldable pub color_that_thing : List ℕ → List ℕ
color_that_thing s = codes "%" ++ s ++ codes "%"
