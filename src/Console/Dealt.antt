-- ===== src/Console/Dealt.antt =====
-- The cards that CardBluffServer/game.cpp prints for its players are those that
-- CardBluffClient/text_io.cpp reads.
use mathlib.Core.List.{reverse_aux, append_assoc}
use card_bluff.Prelude.{
  ℕ, zero, suc, ◌+◌, ◌-◌, ◌*◌, ◌/◌, ◌%◌, ◌^◌, ◌<◌, ◌≡◌, refl, sym, ap, ◌∙◌, subst, inl, inr, true,
  false, List, [], ◌∷◌, ◌++◌, map, some, ◌==◌, ◌&&◌, ◌||◌, leb, codes, length, drop, ok, at,
  Run-cases, Bool-cases, ltb, arith, get_or,
}
use card_bluff.Prelude.Int.{pos}
use card_bluff.Text.{ll_to_string, digits}
use card_bluff.Database.{skip_spaces, scan_digits, starts_with_digit}
use card_bluff.Database.Decimal.{
  AllDigits, digits-AllDigits, printed, scan_digits-printed, ll_to_string-pos, starts-printed,
}
use card_bluff.Session.Message.{scan_u, number, word}
use card_bluff.Game.Deal.{value_chars, card_texts, cards_to_string}
use card_bluff.Console.Cards.{
  skip_colons, up_to_colon, wcstok_r, drop_digits, scan_card, signed_card, read_cards,
  counted_cards, after_prefix, parse_cards,
}

AllDigits-reverse : (s r : List ℕ) → AllDigits s → AllDigits r → AllDigits (reverse_aux s r)
AllDigits-reverse [] r h k = k
AllDigits-reverse (c ∷ s) r h k = AllDigits-reverse s (c ∷ r) h.2 (h.0, h.1, k)

-- Digits end at a colon.
up_to_colon-digits : (s r : List ℕ) → AllDigits s → up_to_colon (s ++ b':' ∷ r) ≡ (s, r)
unfolding up_to_colon
up_to_colon-digits [] r h = refl
up_to_colon-digits (c ∷ s) r h =
    let rest = up_to_colon-digits s r h.2 in
    let other : (c == b':') ≡ false = ground arith in rw (other, rest) refl

wcstok_r-digits :
    (s r : List ℕ)
    → AllDigits s
    → starts_with_digit s ≡ true
    → wcstok_r (s ++ b':' ∷ r) ≡ some (s, r)
unfolding wcstok_r skip_colons
wcstok_r-digits [] r h e = cc
wcstok_r-digits (c ∷ s) r h e =
    let other : (c == b':') ≡ false = ground arith in
    rw other (ap some (up_to_colon-digits (c ∷ s) r h))

scan_u-digit :
    (s : List ℕ) → starts_with_digit s ≡ true → scan_u s ≡ number (scan_digits 0 s % word)
unfolding scan_u skip_spaces
scan_u-digit [] h = cc
scan_u-digit (c ∷ s) h = ground arith

-- A suit and a value that is no colon.
scan_card-text :
    (suit x : ℕ) (r : List ℕ) → suit < 4 → scan_card ((b'0' + suit) ∷ b',' ∷ x ∷ r) ≡ some (suit, x)
unfolding scan_card signed_card skip_spaces scan_digits drop_digits
scan_card-text suit x r h =
    let c = b'0' + suit in
    let space : (c == b' ' || (leb 9 c && leb c 13)) ≡ false = ground arith in
    let minus : (c == b'-') ≡ false = ground arith in
    let plus : (c == b'+') ≡ false = ground arith in
    let digit : (leb b'0' c && leb c b'9') ≡ true = ground arith in
    let value : c - b'0' ≡ suit = omega arith in
    let small : (0 * 10 + suit) % word ≡ suit = omega arith in
    rw (space, minus, plus, digit, value, small) refl

-- The symbols of the values are no colons.
abbrev HaveNoColon : List ℕ → Type 0
HaveNoColon [] = Unit
HaveNoColon (x ∷ chars) = ((x == b':') ≡ false) × HaveNoColon chars

values-HaveNoColon : HaveNoColon value_chars
values-HaveNoColon = (
  refl,
  (
    refl,
    (refl, (refl, (refl, (refl, (refl, (refl, (refl, (refl, (refl, (refl, (refl, tt))))))))))),
  ),
)

at-HaveNoColon :
    (chars : List ℕ) (i x : ℕ) → HaveNoColon chars → at chars i ≡ ok x → (x == b':') ≡ false
at-HaveNoColon [] i x h e = cc
at-HaveNoColon (y ∷ chars) zero x h e = let same : y ≡ x = cc in rw⁻¹ same h.0
at-HaveNoColon (y ∷ chars) (suc i) x h e = at-HaveNoColon chars i x h.1 e

-- A card, as the suit and the symbol of its value.
abbrev pub shown_card : ℕ → ℕ × ℕ
shown_card c = (c % 4, get_or value_chars (c / 4) 0)

get_or-at : (chars : List ℕ) (i x : ℕ) → at chars i ≡ ok x → get_or chars i 0 ≡ x
get_or-at [] i x e = cc
get_or-at (y ∷ chars) zero x e = cc
get_or-at (y ∷ chars) (suc i) x e = get_or-at chars i x e

card_texts-cons :
    (d : ℕ) (cards rest : List ℕ)
    → card_texts (d ∷ cards) ≡ ok rest
    → (y : ℕ) × (tail : List ℕ) × (at value_chars (d / 4) ≡ ok y)
      × (card_texts cards ≡ ok tail)
      × (rest ≡ b':' ∷ (b'0' + d % 4) ∷ b',' ∷ y ∷ tail)
unfolding card_texts
card_texts-cons d cards rest f = elim (Run-cases (at value_chars (d / 4))) [
  | inl g ↦ let x = simp (card_texts, g) at f in absurd (cc)
  | inr (y, g) ↦ elim (Run-cases (card_texts cards)) [
    | inl k ↦ let x = simp (card_texts, g, k) at f in absurd (cc)
    | inr (tail, k) ↦ let x = simp (card_texts, g, k) at f in (y, tail, g, k, cc)
  ]
]

first_token :
    (suit x : ℕ) (r : List ℕ)
    → suit < 4
    → (x == b':') ≡ false
    → wcstok_r ((b'0' + suit) ∷ b',' ∷ x ∷ b':' ∷ r) ≡ some ((b'0' + suit) ∷ b',' ∷ x ∷ [], r)
unfolding wcstok_r skip_colons up_to_colon
first_token suit x r h colon =
    let digit : (b'0' + suit == b':') ≡ false = ground arith in rw (digit, digit, colon) refl

-- What follows the first colon of the text of the cards.
read_cards-texts :
    (c : ℕ) (cards : List ℕ) (x : ℕ) (rest r : List ℕ)
    → at value_chars (c / 4) ≡ ok x
    → card_texts cards ≡ ok rest
    → (last : List ℕ) × (drop 3 last ≡ r)
      × (read_cards (suc (length cards)) ((b'0' + c % 4) ∷ b',' ∷ x ∷ (rest ++ r))
          ≡ some (shown_card c ∷ map shown_card cards, last))
unfolding read_cards card_texts
read_cards-texts c [] x rest r e f =
    let empty : [] ≡ rest = cc in
    let shown = get_or-at value_chars (c / 4) x e in
    let last = (b'0' + c % 4) ∷ b',' ∷ x ∷ r in
    rw⁻¹ empty (last, refl, rw (read_cards, scan_card-text (c % 4) x r (omega arith), shown) refl)
read_cards-texts c (d ∷ cards) x rest r e f =
    let (y, tail, g, k, same) = card_texts-cons d cards rest f in
    let (last, three, read) = read_cards-texts d cards y tail r g k in
    let shown = get_or-at value_chars (c / 4) x e in
    let colon = at-HaveNoColon value_chars (c / 4) x values-HaveNoColon e in
    let next = (b'0' + d % 4) ∷ b',' ∷ y ∷ (tail ++ r) in
    let split = first_token (c % 4) x next (omega arith) colon in
    rw same (
      last,
      three,
      rw (read_cards, split, scan_card-text (c % 4) x [] (omega arith), read, shown) refl,
    )

AllDigits-printed : (n : ℕ) → AllDigits (printed n)
unfolding printed
AllDigits-printed n = AllDigits-reverse (digits n n) [] (digits-AllDigits n n) tt

-- The number of the cards, and what stands behind it.
after_prefix-number :
    (n : ℕ) (r : List ℕ)
    → suc n < word
    → after_prefix (ll_to_string (pos (suc n)) false ++ b':' ∷ r)
      ≡ counted_cards (ll_to_string (pos (suc n)) false ++ b':' ∷ r) r (number (suc n))
unfolding after_prefix
after_prefix-number n r small =
    let text = ll_to_string (pos (suc n)) false in
    let same = ll_to_string-pos n in
    let digits_there = subst AllDigits (sym same) (AllDigits-printed (suc n)) in
    let starts = subst (λ x. starts_with_digit x ≡ true) (sym same) (starts-printed n) in
    let value : scan_digits 0 text ≡ suc n =
      ap (scan_digits 0) same ∙ scan_digits-printed (suc n) in
    let reads : scan_u text ≡ number (suc n) =
      scan_u-digit text starts ∙ ap (λ x. number (x % word)) value ∙ ap number (omega arith) in
    rw (after_prefix, wcstok_r-digits text r digits_there starts, reads) refl

pub cards_to_string-parts :
    (cards text : List ℕ)
    → cards_to_string cards ≡ ok text
    → (rest : List ℕ) × (card_texts cards ≡ ok rest)
      × (text ≡ codes "CARDS:" ++ ll_to_string (pos (length cards)) false ++ rest)
unfolding cards_to_string
cards_to_string-parts cards text e = elim (Run-cases (card_texts cards)) [
  | inl g ↦ let x = simp (cards_to_string, g) at e in absurd (cc)
  | inr (rest, g) ↦
      let whole = codes "CARDS:" ++ ll_to_string (pos (length cards)) false ++ rest in
      elim (Bool-cases (ltb (length whole) 1000)) [
        | inl fits ↦ let x = simp (cards_to_string, g, fits) at e in (rest, g, cc)
        | inr long ↦ let x = simp (cards_to_string, g, long) at e in absurd (cc)
      ]
]

-- Of the message that cards_to_string makes for one or more cards of the pack, fewer than 2 ^ 32, whatever
-- text follows, the client reads the suits and the symbols of the values of these cards, in their order,
-- and that text.
pub parse_cards-cards_to_string :
    (c : ℕ) (cards : List ℕ) (text r : List ℕ)
    → length (c ∷ cards) < 2 ^ 32
    → cards_to_string (c ∷ cards) ≡ ok text
    → parse_cards (text ++ r) ≡ some (map shown_card (c ∷ cards), r)
unfolding parse_cards wcstok_r skip_colons up_to_colon counted_cards
parse_cards-cards_to_string c cards text r small e =
    let (rest, texts, whole) = cards_to_string-parts (c ∷ cards) text e in
    let (y, tail, value, others, start) = card_texts-cons c cards rest texts in
    let n = ll_to_string (pos (length (c ∷ cards))) false in
    let first = (b'0' + c % 4) ∷ b',' ∷ y ∷ (tail ++ r) in
    let (last, three, read) = read_cards-texts c cards y tail r value others in
    let shape : text ++ r ≡ codes "CARDS:" ++ (n ++ b':' ∷ first) =
      rw (whole, start)
        (ap (λ s. codes "CARDS:" ++ s)
          (append_assoc n (b':' ∷ (b'0' + c % 4) ∷ b',' ∷ y ∷ tail) r)) in
    let counted : counted_cards (n ++ b':' ∷ first) first (number (suc (length cards)))
        ≡ some (map shown_card (c ∷ cards), r) =
      rw (counted_cards, read, three) refl in
    ap parse_cards shape ∙ after_prefix-number (length cards) first small ∙ counted
