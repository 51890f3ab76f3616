-- ===== src/Game/Printed.antt =====
-- `cards_to_string` of CardBluffServer/game.cpp fits its buffer for the cards of the pack.
use mathlib.Core.List.{reverse_aux}
use card_bluff.Prelude.{
  ℕ, zero, suc, ◌+◌, ◌*◌, ◌/◌, ◌%◌, ◌≤◌, ◌<◌, ◌≡◌, refl, List, [], ◌∷◌, ◌++◌, ok, at, arith, length,
  length-append, lt→ltb, false, codes, ◌==◌, Bool-cases, inl, inr,
}
use card_bluff.Prelude.Int.{pos}
use card_bluff.Text.{digits, ll_to_string}
use card_bluff.Combinations.Spec.{IsDealt}
use card_bluff.Game.Deal.{value_chars, card_texts, cards_to_string}
use card_bluff.Game.Shuffling.{at-length}

abbrev pub AllCards : List ℕ → Type 0
AllCards [] = Unit
AllCards (c ∷ v) = (c < 52) × AllCards v

pub IsDealt-left : (v w : List ℕ) → IsDealt (v ++ w) → AllCards v
IsDealt-left [] w h = tt
IsDealt-left (c ∷ v) w h = (h.0, IsDealt-left v w h.2)

pub IsDealt-right : (v w : List ℕ) → IsDealt (v ++ w) → AllCards w
IsDealt-right [] [] h = tt
IsDealt-right [] (c ∷ w) h = (h.0, IsDealt-right [] w h.2)
IsDealt-right (c ∷ v) w h = IsDealt-right v w h.2

-- A symbol for each of the 13 values.
symbol : (c : ℕ) (chars : List ℕ) → length chars ≡ 13 → c < 52 → (x : ℕ) × (at chars (c / 4) ≡ ok x)
symbol c chars e l = at-length chars (c / 4) (omega arith)

card_texts-returns :
    (v : List ℕ) → AllCards v → (t : List ℕ) × (card_texts v ≡ ok t) × (length t ≡ 4 * length v)
unfolding card_texts
card_texts-returns [] h = ([], refl, refl)
card_texts-returns (c ∷ v) h =
    let (x, e) = symbol c value_chars refl h.0 in
    let (t, f, len) = card_texts-returns v h.1 in
    (b':' ∷ (b'0' + c % 4) ∷ b',' ∷ x ∷ t, rw (e, f) refl, omega (arith, len))

length-digits : (n a : ℕ) → length (digits n a) ≤ n
unfolding digits
length-digits zero a = omega arith
length-digits (suc n) a = ground (arith, length-digits n (a / 10))

length-reverse_aux : (l r : List ℕ) → length (reverse_aux l r) ≡ length l + length r
length-reverse_aux [] r = omega arith
length-reverse_aux (x ∷ l) r = omega (arith, length-reverse_aux l (x ∷ r))

length-ll_to_string : (n : ℕ) → length (ll_to_string (pos n) false) ≤ n + 1
unfolding ll_to_string
length-ll_to_string n = elim (Bool-cases (n + 0 == 0)) [
  | inl zero_text ↦ rw zero_text (omega arith)
  | inr other ↦ rw other (
      omega (
        arith,
        length-reverse_aux (digits (n + 0) (n + 0) ++ []) [],
        length-append (digits (n + 0) (n + 0)) [],
        length-digits (n + 0) (n + 0),
      ))
]

pub cards_to_string-returns :
    (v : List ℕ) → AllCards v → length v ≤ 52 → (t : List ℕ) × (cards_to_string v ≡ ok t)
unfolding cards_to_string
cards_to_string-returns v h few =
    let (t, e, len) = card_texts-returns v h in
    let text = codes "CARDS:" ++ ll_to_string (pos (length v)) false ++ t in
    let short : length text < 1000 = omega (
      arith,
      length-append (ll_to_string (pos (length v)) false) t,
      length-ll_to_string (length v),
      len,
    ) in
    (text, rw (e, lt→ltb (length text) 1000 short) refl)
