-- ===== src/Console/Highlight.antt =====
-- `win_print_with_highlight` of CardBluffClient/text_io.cpp, against the escapes that
-- CardBluffServer/util/util.cpp writes.
use mathlib.Core.List.{append_assoc}
use card_bluff.Prelude.{
  ℕ, ◌≡◌, refl, ap, ◌∙◌, inl, inr, Bool, true, false, not, List, [], ◌∷◌, ◌++◌, map, ◌==◌, ◌||◌,
  if◌then◌else◌, codes, Bool-cases, arith,
}
use card_bluff.Text.{is_special, escape_special_chars, color_that_thing}

-- What the window gets: characters, each with whether it is highlighted. The arguments are
-- `highlight_on` and `backslash_found`.
unfoldable pub win_print : Bool → Bool → List ℕ → List (ℕ × Bool)
win_print highlight_on true [] = (b'\\', highlight_on) ∷ []
win_print highlight_on false [] = []
win_print highlight_on true (c ∷ str) =
    let rest = win_print highlight_on false str in
    if c == b'\\' || c == b'%'
    then (c, highlight_on) ∷ rest
    else (b'\\', highlight_on) ∷ (c, highlight_on) ∷ rest
win_print highlight_on false (c ∷ str) =
    let escaped = win_print highlight_on true str in
    let toggled = win_print (not highlight_on) false str in
    let plain = win_print highlight_on false str in
    if c == b'\\' then escaped else if c == b'%' then toggled else (c, highlight_on) ∷ plain

unfoldable pub win_print_with_highlight : List ℕ → List (ℕ × Bool)
unfolding win_print
win_print_with_highlight str = win_print false false str

-- All characters the same way.
abbrev pub in_one : Bool → List ℕ → List (ℕ × Bool)
in_one h s = map (λ c. (c, h)) s

win_print-escaped :
    (h : Bool) (s r : List ℕ)
    → win_print h false (escape_special_chars s ++ r) ≡ in_one h s ++ win_print h false r
unfolding win_print escape_special_chars
win_print-escaped h [] r = refl
win_print-escaped h (c ∷ s) r =
    let rest = win_print-escaped h s r in
    elim (Bool-cases (is_special c)) [
      | inl special ↦
          let either : (c == b'\\' || c == b'%') ≡ true = ground arith in
          rw (special, either) (ap (λ x. (c, h) ∷ x) rest)
      | inr plain ↦
          let slash : (c == b'\\') ≡ false = ground arith in
          let percent : (c == b'%') ≡ false = ground arith in
          rw (plain, slash, percent) (ap (λ x. (c, h) ∷ x) rest)
    ]

-- A text in which the server has escaped the special characters is shown as it was, in the middle of a
-- message too; between the two "%" of color_that_thing it is highlighted, and what follows is shown as
-- without it.
pub win_print-color_that_thing :
    (s r t : List ℕ)
    → (win_print_with_highlight (escape_special_chars s ++ r)
        ≡ in_one false s ++ win_print_with_highlight r)
      × (win_print_with_highlight (color_that_thing (escape_special_chars s) ++ t)
          ≡ in_one true s ++ win_print_with_highlight t)
unfolding win_print_with_highlight color_that_thing win_print
win_print-color_that_thing s r t = (
  win_print-escaped false s r,
  ap (win_print true false) (append_assoc (escape_special_chars s) (codes "%") t)
      ∙ win_print-escaped true s (codes "%" ++ t),
)
