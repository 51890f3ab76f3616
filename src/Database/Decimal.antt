-- ===== src/Database/Decimal.antt =====
-- What `ll_to_string` of CardBluffServer/util/util.cpp prints is read back by the `sscanf` of
-- CardBluffServer/database.cpp.
use mathlib.Core.List.{reverse_aux, reverse_aux-append, append-nil}
use card_bluff.Prelude.{
  ℕ, zero, suc, ◌+◌, ◌-◌, ◌*◌, ◌/◌, ◌%◌, ◌≤◌, ◌<◌, ◌≡◌, refl, ◌∙◌, Bool, true, false, List, [], ◌∷◌,
  some, ◌==◌, arith, Bool-cases, inl, inr, le→leb,
}
use card_bluff.Prelude.Int.{ℤ, pos, negsuc}
use card_bluff.Text.{digits, ll_to_string}
use card_bluff.Database.{scan_digits, starts_with_digit, skip_spaces, scan_ll, negative}

abbrev pub AllDigits : List ℕ → Type 0
AllDigits [] = Unit
AllDigits (c ∷ s) = (b'0' ≤ c) × (c ≤ b'9') × AllDigits s

-- The number that digits stand for, the lowest first.
abbrev value : List ℕ → ℕ
value [] = 0
value (c ∷ s) = c - b'0' + 10 * value s

pub digits-AllDigits : (n a : ℕ) → AllDigits (digits n a)
unfolding digits
digits-AllDigits zero a = tt
digits-AllDigits (suc n) a = elim (Bool-cases (a == 0)) [
  | inl done ↦ rw done tt
  | inr more ↦ rw more (omega arith, omega arith, digits-AllDigits n (a / 10))
]

-- Fuel equal to the number is enough.
value-digits : (n a : ℕ) → a ≤ n → value (digits n a) ≡ a
unfolding digits
value-digits zero a h = omega arith
value-digits (suc n) a h = elim (Bool-cases (a == 0)) [
  | inl done ↦ rw done (ground arith)
  | inr more ↦ rw more (ground (arith, value-digits n (a / 10) (ground arith)))
]

scan_digits-reverse :
    (s r : List ℕ) → AllDigits s → scan_digits 0 (reverse_aux s r) ≡ scan_digits (value s) r
unfolding scan_digits
scan_digits-reverse [] r h = refl
scan_digits-reverse (c ∷ s) r h =
    let e : value s * 10 + (c - b'0') ≡ value (c ∷ s) = omega arith in
    scan_digits-reverse s (c ∷ r) h.2 ∙ rw (le→leb b'0' c h.0, le→leb c b'9' h.1, e) refl

starts-reverse :
    (s r : List ℕ)
    → AllDigits s
    → starts_with_digit r ≡ true
    → starts_with_digit (reverse_aux s r) ≡ true
starts-reverse [] r h e = e
starts-reverse (c ∷ s) r h e =
    starts-reverse s (c ∷ r) h.2 (rw (le→leb b'0' c h.0, le→leb c b'9' h.1) refl)

starts-digits : (n : ℕ) → 0 < n → starts_with_digit (reverse_aux (digits n n) []) ≡ true
unfolding digits
starts-digits zero h = absurd (omega arith)
starts-digits (suc n) h =
    let more : (suc n == 0) ≡ false = ground arith in
    rw more
      (starts-reverse (digits n (suc n / 10)) _ (digits-AllDigits n (suc n / 10)) (ground arith))

scan_ll-digit : (s : List ℕ) → starts_with_digit s ≡ true → scan_ll s ≡ some (pos (scan_digits 0 s))
unfolding scan_ll skip_spaces
scan_ll-digit [] h = cc
scan_ll-digit (c ∷ s) h = ground arith

scan_ll-minus :
    (s : List ℕ)
    → starts_with_digit s ≡ true
    → scan_ll (b'-' ∷ s) ≡ some (negative (scan_digits 0 s))
unfolding scan_ll skip_spaces
scan_ll-minus s h = rw h refl

scan_ll-plus :
    (s : List ℕ) → starts_with_digit s ≡ true → scan_ll (b'+' ∷ s) ≡ some (pos (scan_digits 0 s))
unfolding scan_ll skip_spaces
scan_ll-plus s h = rw h refl

-- The digits of a number, the highest first.
unfoldable pub printed : ℕ → List ℕ
printed n = reverse_aux (digits n n) []

pub scan_digits-printed : (n : ℕ) → scan_digits 0 (printed n) ≡ n
unfolding printed scan_digits
scan_digits-printed n =
    scan_digits-reverse (digits n n) [] (digits-AllDigits n n) ∙ value-digits n n (omega arith)

pub ll_to_string-pos : (n : ℕ) → ll_to_string (pos (suc n)) false ≡ printed (suc n)
unfolding ll_to_string printed
ll_to_string-pos n =
    let e : suc n + 0 ≡ suc n = omega arith in
    let more : (suc n == 0) ≡ false = ground arith in
    rw (e, more, append-nil (digits n (suc n / 10))) refl

ll_to_string-plus : (n : ℕ) → ll_to_string (pos (suc n)) true ≡ b'+' ∷ printed (suc n)
unfolding ll_to_string printed
ll_to_string-plus n =
    let e : suc n + 0 ≡ suc n = omega arith in
    let more : (suc n == 0) ≡ false = ground arith in
    rw (e, more, reverse_aux-append (digits n (suc n / 10)) (b'+' ∷ []) ((b'0' + suc n % 10) ∷ []))
      refl

ll_to_string-minus : (n : ℕ) (plus : Bool) → ll_to_string (negsuc n) plus ≡ b'-' ∷ printed (suc n)
unfolding ll_to_string printed
ll_to_string-minus n plus =
    let e : 0 + suc n ≡ suc n = omega arith in
    let more : (suc n == 0) ≡ false = ground arith in
    rw (e, more, reverse_aux-append (digits n (suc n / 10)) (b'-' ∷ []) ((b'0' + suc n % 10) ∷ []))
      refl

pub starts-printed : (n : ℕ) → starts_with_digit (printed (suc n)) ≡ true
unfolding printed
starts-printed n = starts-digits (suc n) (omega arith)

scan_zero : (plus : Bool) → scan_ll (ll_to_string (pos 0) plus) ≡ some (pos 0)
unfolding scan_ll skip_spaces scan_digits ll_to_string
scan_zero plus = refl

-- `sscanf` with "%I64d" reads the number that `ll_to_string` has printed, with and without the plus
-- sign.
pub scan_ll-ll_to_string : (a : ℤ) (plus_sign : Bool) → scan_ll (ll_to_string a plus_sign) ≡ some a
scan_ll-ll_to_string (pos zero) plus = scan_zero plus
scan_ll-ll_to_string (pos (suc n)) false =
    rw
      (
        ll_to_string-pos n,
        scan_ll-digit (printed (suc n)) (starts-printed n),
        scan_digits-printed (suc n),
      )
      refl
scan_ll-ll_to_string (pos (suc n)) true =
    rw
      (
        ll_to_string-plus n,
        scan_ll-plus (printed (suc n)) (starts-printed n),
        scan_digits-printed (suc n),
      )
      refl
scan_ll-ll_to_string (negsuc n) plus =
    rw
      (
        ll_to_string-minus n plus,
        scan_ll-minus (printed (suc n)) (starts-printed n),
        scan_digits-printed (suc n),
      )
      refl
