-- ===== src/Console/Shown.antt =====
-- `output_win_addwstr_colored` of CardBluffClient/text_io.cpp: what the output window shows of a
-- message. The calls of curses are taken to succeed.
use card_bluff.Prelude.{
  ℕ, zero, suc, ◌≡◌, refl, sym, ap, ◌∙◌, subst, Bool, true, false, List, [], ◌∷◌, ◌++◌, map, Option,
  none, some, ◌==◌, if◌then◌else◌, codes, length, ok, ◌<◌, ◌^◌, arith,
}
use card_bluff.Session.Message.{behind}
use card_bluff.Text.{is_special, escape_special_chars, color_that_thing}
use card_bluff.Game.Deal.{cards_to_string}
use card_bluff.Console.Highlight.{win_print_with_highlight, in_one, win_print-color_that_thing}
use card_bluff.Console.Cards.{parse_cards}
use card_bluff.Console.Dealt.{shown_card, cards_to_string-parts, parse_cards-cards_to_string}

pub data Shade : Type 0 where
  default_shade highlight_shade server_shade error_shade : Shade
  hearts_shade diamonds_shade spades_shade clubs_shade : Shade

abbrev pub shaded : Shade → List ℕ → List (ℕ × Shade)
shaded shade s = map (λ c. (c, shade)) s

abbrev highlight_of : Bool → Shade
highlight_of true = highlight_shade
highlight_of false = default_shade

-- `win_print_with_highlight`, in the window's colors.
abbrev pub highlighted : List ℕ → List (ℕ × Shade)
highlighted s = map (λ p. (p.0, highlight_of p.1)) (win_print_with_highlight s)

-- `HEARTS_CHAR` and so on; another number has no symbol.
abbrev suit_symbol : ℕ → List (ℕ × Shade)
suit_symbol suit =
    if suit == 0
    then (9829, hearts_shade) ∷ []
    else if suit == 1
    then (9830, diamonds_shade) ∷ []
    else if suit == 2
    then (9824, spades_shade) ∷ []
    else if suit == 3
    then (9827, clubs_shade) ∷ []
    else []

-- The loop over the cards, with ", " between them.
unfoldable pub show_cards : List (ℕ × ℕ) → List (ℕ × Shade)
show_cards [] = []
show_cards ((suit, value) ∷ []) = (value, default_shade) ∷ suit_symbol suit
show_cards ((suit, value) ∷ card ∷ cards) =
    (value, default_shade) ∷ suit_symbol suit
    ++ shaded default_shade (codes ", ")
    ++ show_cards (card ∷ cards)

abbrev new_line : List (ℕ × Shade)
new_line = shaded default_shade (codes "\n")

unfoldable pub show_other : List ℕ → List (ℕ × Shade)
unfolding win_print_with_highlight behind
show_other str = elim (behind (codes "ERROR:") str) [
  | some rest ↦ shaded error_shade str ++ new_line
  | none ↦ elim (behind (codes "USER ") str) [
    | some rest ↦ highlighted rest ++ new_line
    | none ↦ shaded default_shade (codes "> " ++ str) ++ new_line
  ]
]

-- `none` is the return of ERR.
abbrev pub shown_cards : Option (List (ℕ × ℕ) × List ℕ) → Option (List (ℕ × Shade))
shown_cards none = none
shown_cards (some (cards, prefix)) =
    some
      (shaded server_shade (codes "SERVER: ") ++ highlighted prefix ++ show_cards cards ++ new_line)

unfoldable pub show_message : List ℕ → Option (List (ℕ × Shade))
unfolding show_other parse_cards behind
show_message str = elim (behind (codes "SERVER:") str) [
  | some rest ↦ some (shaded server_shade (codes "SERVER:") ++ highlighted rest ++ new_line)
  | none ↦ elim (behind (codes "CARDS:") str) [
    | some rest ↦ shown_cards (parse_cards str)
    | none ↦ some (show_other str)
  ]
]

abbrev HasNoSpecial : List ℕ → Type 0
HasNoSpecial [] = Unit
HasNoSpecial (c ∷ s) = (is_special c ≡ false) × HasNoSpecial s

escape-HasNoSpecial : (s : List ℕ) → HasNoSpecial s → escape_special_chars s ≡ s
unfolding escape_special_chars
escape-HasNoSpecial [] h = refl
escape-HasNoSpecial (c ∷ s) h = rw h.0 (ap (λ r. c ∷ r) (escape-HasNoSpecial s h.1))

map-append {ℓ κ} :
    {A : Type ℓ} {B : Type κ} (f : A → B) (xs ys : List A) → map f (xs ++ ys) ≡ map f xs ++ map f ys
map-append f [] ys = refl
map-append f (x ∷ xs) ys = ap (λ r. f x ∷ r) (map-append f xs ys)

in_one-shaded :
    (b : Bool) (s : List ℕ)
    → map (λ p. (p.0, highlight_of p.1)) (in_one b s) ≡ shaded (highlight_of b) s
in_one-shaded b [] = refl
in_one-shaded b (c ∷ s) = ap (λ r. (c, highlight_of b) ∷ r) (in_one-shaded b s)

-- Of a chat message the client shows the nickname, highlighted, where it has no "%" and no "\\", and
-- then the text, in which "%" and "\\" have their effects.
pub show_message-chat :
    (nick text : List ℕ)
    → HasNoSpecial nick
    → show_message (codes "USER " ++ color_that_thing nick ++ text)
      ≡ some
          ((shaded highlight_shade nick ++ highlighted text) ++ shaded default_shade (codes "\n"))
unfolding show_message show_other behind
show_message-chat nick text h =
    let colored = (win_print-color_that_thing nick [] text).1 in
    let plain =
      subst
        (λ s.
          win_print_with_highlight (color_that_thing s ++ text)
          ≡ in_one true nick ++ win_print_with_highlight text)
        (escape-HasNoSpecial nick h) colored in
    let value : highlighted (color_that_thing nick ++ text)
        ≡ shaded highlight_shade nick ++ highlighted text =
      ap (map (λ p. (p.0, highlight_of p.1))) plain
      ∙ map-append (λ p. (p.0, highlight_of p.1)) (in_one true nick) (win_print_with_highlight text)
      ∙ ap (λ s. s ++ highlighted text) (in_one-shaded true nick) in
    ap (λ s. some (s ++ shaded default_shade (codes "\n"))) value

-- A card as the client shows it: the character of its value, and its symbol in its color.
abbrev pub drawn_card : ℕ × ℕ → List (ℕ × Shade)
drawn_card (zero, value) = (value, default_shade) ∷ (9829, hearts_shade) ∷ []
drawn_card (suc zero, value) = (value, default_shade) ∷ (9830, diamonds_shade) ∷ []
drawn_card (suc (suc zero), value) = (value, default_shade) ∷ (9824, spades_shade) ∷ []
drawn_card (suc (suc (suc zero)), value) = (value, default_shade) ∷ (9827, clubs_shade) ∷ []
drawn_card (suc (suc (suc (suc n))), value) = (value, default_shade) ∷ []

-- Cards with ", " between them.
abbrev pub drawn_cards : List (ℕ × ℕ) → List (ℕ × Shade)
drawn_cards [] = []
drawn_cards (card ∷ []) = drawn_card card
drawn_cards (card ∷ next ∷ cards) =
    drawn_card card ++ shaded default_shade (codes ", ") ++ drawn_cards (next ∷ cards)

suit_symbol-drawn : (card : ℕ × ℕ) → (card.1, default_shade) ∷ suit_symbol card.0 ≡ drawn_card card
suit_symbol-drawn (zero, value) = refl
suit_symbol-drawn (suc zero, value) = refl
suit_symbol-drawn (suc (suc zero), value) = refl
suit_symbol-drawn (suc (suc (suc zero)), value) = refl
suit_symbol-drawn (suc (suc (suc (suc n))), value) = ground arith

show_cards-drawn : (cards : List (ℕ × ℕ)) → show_cards cards ≡ drawn_cards cards
unfolding show_cards
show_cards-drawn [] = refl
show_cards-drawn (card ∷ []) = suit_symbol-drawn card
show_cards-drawn (card ∷ next ∷ cards) =
    ap (λ x. x ++ shaded default_shade (codes ", ") ++ show_cards (next ∷ cards))
      (suit_symbol-drawn card)
    ∙ ap (λ r. drawn_card card ++ shaded default_shade (codes ", ") ++ r)
        (show_cards-drawn (next ∷ cards))

-- Of the message that cards_to_string makes for one or more cards of the pack, and a text behind it, the
-- client shows that text behind "SERVER: ", in which "%" and "\\" have their effects, and then the cards
-- one after the other with ", " between them, each as the character of its value and the symbol of its
-- suit in the color of that suit, and a line break.
pub show_message-cards_to_string :
    (c : ℕ) (cards : List ℕ) (text r : List ℕ)
    → length (c ∷ cards) < 2 ^ 32
    → cards_to_string (c ∷ cards) ≡ ok text
    → show_message (text ++ r)
      ≡ some (
          shaded server_shade (codes "SERVER: ")
          ++ highlighted r
          ++ drawn_cards (map shown_card (c ∷ cards))
          ++ shaded default_shade (codes "\n"))
unfolding show_message behind
show_message-cards_to_string c cards text r small e =
    let (rest, texts, whole) = cards_to_string-parts (c ∷ cards) text e in
    let read = parse_cards-cards_to_string c cards text r small e in
    let shape = ap (λ s. s ++ r) whole in
    ap show_message shape
    ∙ ap (λ s. shown_cards (parse_cards s)) (sym shape)
    ∙ ap shown_cards read
    ∙ ap
        (λ s. some (
          shaded server_shade (codes "SERVER: ")
          ++ highlighted r
          ++ s
          ++ shaded default_shade (codes "\n")))
        (show_cards-drawn (map shown_card (c ∷ cards)))
