-- ===== src/Game/Deal.antt =====
-- Shuffling, dealing and printing of the cards in CardBluffServer/game.cpp.
use card_bluff.Prelude.{
  ℕ, zero, suc, ◌+◌, ◌/◌, ◌%◌, List, [], ◌∷◌, ◌++◌, take, drop, ltb, length, codes, Run, ok, ◌>>=◌,
  ◌>>◌, at, update, assert,
}
use card_bluff.Prelude.Int.{pos}
use mathlib.Core.Bool.{false}
use card_bluff.Text.{ll_to_string}
use card_bluff.Combinations.Hand.{hand_of}
use card_bluff.Game.State.{Game, all_cards}

-- `for (i = 0; i < ALL_CARDS; ++i) arr[i] = i;`, for the numbers from `i`.
unfoldable pub count_up : ℕ → ℕ → List ℕ
count_up zero i = []
count_up (suc n) i = i ∷ count_up n (suc i)

-- `swap(arr[i], arr[j])`.
unfoldable pub swap_at : List ℕ → ℕ → ℕ → Run (List ℕ)
swap_at arr i j = do
  a ← at arr i
  b ← at arr j
  arr' ← update arr i (λ _. b)
  update arr' j (λ _. a)

-- `for (i = n - 1; i != CARD_TYPE_MAX; --i)`: the counter, a `uint8_t`, wraps after 0. `drawn` is the
-- place of the next number of the generator.
unfoldable pub shuffle : (ℕ → ℕ) → ℕ → ℕ → List ℕ → Run (List ℕ)
unfolding swap_at
shuffle gnr drawn zero arr = ok arr
shuffle gnr drawn (suc i) arr =
    swap_at arr i (gnr drawn % (i + 1)) >>= λ arr'. shuffle gnr (suc drawn) i arr'

unfoldable pub generate_shuffled_array_of_cards : (ℕ → ℕ) → ℕ → Run (List ℕ)
unfolding shuffle count_up
generate_shuffled_array_of_cards gnr drawn = shuffle gnr drawn all_cards (count_up all_cards 0)

module _ {Db : Type 0} (gnr : ℕ → ℕ) where
  -- The two calls of `copy` read the range that the second test checks.
  unfoldable pub generate_cards : Game Db → Run (Game Db)
  unfolding generate_shuffled_array_of_cards
  generate_cards g = do
    my_cards ← generate_shuffled_array_of_cards gnr g.drawn
    assert (ltb (g.card_number1 + g.card_number2) (suc (length my_cards)))
    hand ← hand_of (take (g.card_number1 + g.card_number2) my_cards)
    ok (record g {
      drawn = g.drawn + all_cards;
      cards1 = take g.card_number1 my_cards;
      cards2 = take g.card_number2 (drop g.card_number1 my_cards);
      union_of_cards = hand;
    })

-- The `switch` on the value, from TWO to ACE; no case sets `value_c` for other values.
abbrev pub value_chars : List ℕ
value_chars =
    b'2' ∷ b'3' ∷ b'4' ∷ b'5' ∷ b'6' ∷ b'7' ∷ b'8' ∷ b'9' ∷ b'0' ∷ b'J' ∷ b'Q' ∷ b'K' ∷ b'A' ∷ []

-- The loop's text: ":<suit>,<value>" for each card.
unfoldable pub card_texts : List ℕ → Run (List ℕ)
card_texts [] = ok []
card_texts (c ∷ cards) = do
  value ← at value_chars (c / 4)
  rest ← card_texts cards
  ok (b':' ∷ (b'0' + c % 4) ∷ b',' ∷ value ∷ rest)

-- `BUFFER_SIZE`.
abbrev buffer_size : ℕ
buffer_size = 1000

unfoldable pub cards_to_string : List ℕ → Run (List ℕ)
unfolding card_texts
cards_to_string cards = do
  rest ← card_texts cards
  let text = codes "CARDS:" ++ ll_to_string (pos (length cards)) false ++ rest
  assert (ltb (length text) buffer_size)
  ok text
