-- ===== src/Console/Scan.antt =====
-- `swscanf(text, "%8x%8x", ...)`, by which CardBluffClient/main.cpp reads a salt.
use mathlib.Core.List.{append_assoc, append-nil}
use card_bluff.Prelude.{
  ℕ, zero, suc, ◌+◌, ◌-◌, ◌*◌, ◌/◌, ◌%◌, ◌^◌, ◌<◌, ◌≡◌, refl, ap, ◌∙◌, sym, Bool, true, false, List,
  [], ◌∷◌, ◌++◌, Option, none, some, ◌==◌, ◌&&◌, ◌||◌, leb, if◌then◌else◌, arith,
}
use card_bluff.Database.{skip_spaces}
use card_bluff.Session.{hex_digit, hex_digits, salt_text}

abbrev pub is_hex : ℕ → Bool
is_hex c = (leb b'0' c && leb c b'9') || (leb b'a' c && leb c b'f') || (leb b'A' c && leb c b'F')

abbrev pub hex_value : ℕ → ℕ
hex_value c = if leb c b'9' then c - b'0' else if leb c b'F' then c - b'A' + 10 else c - b'a' + 10

-- At most that many digits, behind those read so far; the number and the rest of the text.
unfoldable pub scan_hex_digits : ℕ → ℕ → List ℕ → ℕ × List ℕ
scan_hex_digits zero acc s = (acc, s)
scan_hex_digits (suc n) acc [] = (acc, [])
scan_hex_digits (suc n) acc (c ∷ s) =
    let rest = scan_hex_digits n (acc * 16 + hex_value c) s in
    if is_hex c then rest else (acc, c ∷ s)

abbrev starts_hex : List ℕ → Bool
starts_hex [] = false
starts_hex (c ∷ s) = is_hex c

-- A number of at most so many characters; `none` is a text that begins with no digit.
unfoldable pub scan_digits_hex : ℕ → List ℕ → Option (ℕ × List ℕ)
unfolding scan_hex_digits
scan_digits_hex n s = if starts_hex s then some (scan_hex_digits n 0 s) else none

-- With the prefix "0x" or "0X", which counts.
unfoldable pub scan_prefixed : ℕ → List ℕ → Option (ℕ × List ℕ)
unfolding scan_digits_hex
scan_prefixed n [] = none
scan_prefixed n (c ∷ []) = scan_digits_hex n (c ∷ [])
scan_prefixed n (c ∷ d ∷ s) =
    if c == b'0' && (d == b'x' || d == b'X')
    then scan_digits_hex (n - 2) s
    else scan_digits_hex n (c ∷ d ∷ s)

abbrev pub negated : Option (ℕ × List ℕ) → Option (ℕ × List ℕ)
negated none = none
negated (some (a, s)) = some ((2 ^ 32 - a) % 2 ^ 32, s)

-- With a sign, which counts.
unfoldable pub scan_signed_hex : ℕ → List ℕ → Option (ℕ × List ℕ)
unfolding scan_prefixed
scan_signed_hex n [] = none
scan_signed_hex n (c ∷ s) =
    if c == b'-'
    then negated (scan_prefixed (n - 1) s)
    else if c == b'+'
    then scan_prefixed (n - 1) s
    else scan_prefixed n (c ∷ s)

unfoldable pub scan_hex : ℕ → List ℕ → Option (ℕ × List ℕ)
unfolding scan_signed_hex skip_spaces
scan_hex n s = scan_signed_hex n (skip_spaces s)

-- `salt = (((unsigned long long) salt_h) << 32) | salt_l` of two numbers; `none` where one of the two
-- is not read, and so not initialised.
unfoldable pub with_low : ℕ → Option (ℕ × List ℕ) → Option ℕ
with_low salt_h none = none
with_low salt_h (some (salt_l, rest)) = some (salt_h * 2 ^ 32 + salt_l)

unfoldable pub with_high : Option (ℕ × List ℕ) → Option ℕ
unfolding scan_hex with_low
with_high none = none
with_high (some (salt_h, rest)) = with_low salt_h (scan_hex 8 rest)

unfoldable pub scan_salt : List ℕ → Option ℕ
unfolding scan_hex with_high
scan_salt text = with_high (scan_hex 8 text)

digit-hex : (d : ℕ) → d < 16 → is_hex (hex_digit d) ≡ true
digit-hex d h = ground arith

digit-value : (d : ℕ) → d < 16 → hex_value (hex_digit d) ≡ d
digit-value d h = ground arith

digit-plain : (d : ℕ) → d < 16 → ((hex_digit d == b'x') ≡ false) × ((hex_digit d == b'X') ≡ false)
digit-plain d h = (ground arith, ground arith)

-- 16 ^ k.
abbrev sixteens : ℕ → ℕ
sixteens zero = 1
sixteens (suc k) = 16 * sixteens k

last_digit :
    (m n : ℕ) (r : List ℕ)
    → scan_hex_digits (suc m) (n / 16) (hex_digit (n % 16) ∷ r) ≡ scan_hex_digits m n r
unfolding scan_hex_digits
last_digit m n r =
    let small : n % 16 < 16 = omega arith in
    let back : n / 16 * 16 + n % 16 ≡ n = omega arith in
    rw (digit-hex (n % 16) small, digit-value (n % 16) small, back) refl

scan_hex_digits-hex_digits :
    (k m n : ℕ) (r : List ℕ)
    → n < sixteens k
    → scan_hex_digits (k + m) 0 (hex_digits k n ++ r) ≡ scan_hex_digits m n r
unfolding hex_digits
scan_hex_digits-hex_digits zero m n r h =
    let e : n ≡ 0 = omega arith in
    ap (λ x. scan_hex_digits x 0 r) (omega arith) ∙ ap (λ x. scan_hex_digits m x r) (sym e)
scan_hex_digits-hex_digits (suc k) m n r h =
    let d = hex_digit (n % 16) in
    let before : n / 16 < sixteens k = omega arith in
    let rest = scan_hex_digits-hex_digits k (suc m) (n / 16) (d ∷ r) before in
    ap (scan_hex_digits (suc k + m) 0) (append_assoc (hex_digits k (n / 16)) (d ∷ []) r)
    ∙ ap (λ x. scan_hex_digits x 0 (hex_digits k (n / 16) ++ (d ∷ r))) (omega arith)
    ∙ rest
    ∙ last_digit m n r

and-false : (b : Bool) → (b && false) ≡ false
and-false true = refl
and-false false = refl

-- Behind a digit that begins no prefix.
scan_hex-plain :
    (c d : ℕ) (s : List ℕ)
    → is_hex c ≡ true
    → (d == b'x') ≡ false
    → (d == b'X') ≡ false
    → scan_hex 8 (c ∷ d ∷ s) ≡ some (scan_hex_digits 8 0 (c ∷ d ∷ s))
unfolding scan_hex scan_signed_hex scan_prefixed scan_digits_hex skip_spaces
scan_hex-plain c d s h p q =
    let space : (c == b' ' || (leb 9 c && leb c 13)) ≡ false = ground arith in
    let minus : (c == b'-') ≡ false = ground arith in
    let plus : (c == b'+') ≡ false = ground arith in
    let no_prefix : (c == b'0' && (d == b'x' || d == b'X')) ≡ false =
      rw (p, q) (and-false (c == b'0')) in
    rw (scan_hex, skip_spaces, space, minus, plus, no_prefix, h) refl

scan_hex-hex_digits :
    (n : ℕ) (r : List ℕ) → n < 2 ^ 32 → scan_hex 8 (hex_digits 8 n ++ r) ≡ some (n, r)
unfolding hex_digits scan_hex_digits
scan_hex-hex_digits n r h =
    let first : n / 16 / 16 / 16 / 16 / 16 / 16 / 16 % 16 < 16 = omega arith in
    let second : n / 16 / 16 / 16 / 16 / 16 / 16 % 16 < 16 = omega arith in
    let plain = digit-plain (n / 16 / 16 / 16 / 16 / 16 / 16 % 16) second in
    scan_hex-plain _ _ _ (digit-hex (n / 16 / 16 / 16 / 16 / 16 / 16 / 16 % 16) first) plain.0
      plain.1
    ∙ ap some (scan_hex_digits-hex_digits 8 0 n r h)

-- `swscanf` with "%8x%8x" reads back every number of 64 bits that `swprintf` with "%08x%08x" has
-- printed.
pub scan_salt-salt_text : (n : ℕ) → n < 2 ^ 64 → scan_salt (salt_text n) ≡ some n
unfolding scan_salt salt_text with_high with_low
scan_salt-salt_text n h =
    let high : n / 2 ^ 32 % 2 ^ 32 < 2 ^ 32 = omega arith in
    let low : n % 2 ^ 32 < 2 ^ 32 = omega arith in
    let tail = hex_digits 8 (n % 2 ^ 32) in
    ap with_high (scan_hex-hex_digits (n / 2 ^ 32 % 2 ^ 32) tail high)
    ∙ ap (λ text. with_low (n / 2 ^ 32 % 2 ^ 32) (scan_hex 8 text)) (sym (append-nil tail))
    ∙ ap (with_low (n / 2 ^ 32 % 2 ^ 32)) (scan_hex-hex_digits (n % 2 ^ 32) [] low)
    ∙ ap some (omega arith)
