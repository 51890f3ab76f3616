-- ===== src/Game/Score.antt =====
-- What the extra card of a lost round does to the score: `game_result` and the `switch` after it in
-- `player_loses_round`, CardBluffServer/game.cpp.
use card_bluff.Prelude.{
  ℕ, suc, ◌+◌, ◌%◌, ◌≤◌, ◌<◌, ◌≡◌, refl, ◌⊎◌, inl, inr, ok, fault, ◌>>=◌, arith, le→leb, eq-cases,
}
use card_bluff.Env.{Env}
use card_bluff.Game.State.{
  Game, CurrentMove, first_player_move, second_player_move, RoundResult, first_player_lost_round,
  second_player_lost_round, first_player_lost_game, second_player_lost_game, tie_in_game,
}
use card_bluff.Game.Round.{game_result, result_of, add_card_to, player_loses_round}

-- The numbers of cards with which a round is played: from 5 to 26, not 26 each, and nearly equal from
-- 10 cards on.
abbrev pub Playable : ℕ → ℕ → Type 0
Playable a b =
    (5 ≤ a)
    × (5 ≤ b)
    × (a ≤ 26)
    × (b ≤ 26)
    × (a + b < 52)
    × (((a < 10) × (b < 10)) ⊎ ((a ≤ b + 1) × (b ≤ a + 1)))

abbrev pub lost_round : CurrentMove → RoundResult
lost_round first_player_move = first_player_lost_round
lost_round second_player_move = second_player_lost_round

abbrev pub lost_game : CurrentMove → RoundResult
lost_game first_player_move = first_player_lost_game
lost_game second_player_move = second_player_lost_game

-- What the two functions make of the numbers of cards after a round that `cur` has lost.
abbrev pub Decided : CurrentMove → ℕ → ℕ → Type 0
Decided cur a b =
    (((game_result a b >>= result_of cur) ≡ ok (lost_round cur)) × Playable a b)
    ⊎ (((game_result a b >>= result_of cur) ≡ ok (lost_game cur)) × ¬ Playable a b)
    ⊎ (((game_result a b >>= result_of cur) ≡ ok tie_in_game) × (a ≡ 26) × (b ≡ 26))

abbrev Close : ℕ → ℕ → Type 0
Close a b = ((a < 10) × (b < 10)) ⊎ ((a ≤ b + 1) × (b ≤ a + 1))

Close-cases : (a b : ℕ) → Close a b ⊎ (¬ Close a b)
Close-cases a b = omega arith

first-Decided : (a b : ℕ) → Playable a b → a < 26 → Decided first_player_move (suc a) b
unfolding game_result result_of
first-Decided a b h l = elim (eq-cases (a + b) 51) [
  | inl top ↦ inr (inr (ground arith, omega (arith, h), omega (arith, h)))
  | inr early ↦ elim (Close-cases (suc a) (b)) [
    | inl close ↦ inl (
      ground arith,
      (
        omega (arith, h),
        omega (arith, h),
        omega (arith, h),
        omega (arith, h),
        omega (arith, h),
        close,
      ),
    )
    | inr apart ↦ inr (inl (ground arith, λ p. absurd (omega (arith, p.5, apart))))
  ]
]

second-Decided : (a b : ℕ) → Playable a b → b < 26 → Decided second_player_move a (suc b)
unfolding game_result result_of
second-Decided a b h l = elim (eq-cases (a + b) 51) [
  | inl top ↦ inr (inr (ground arith, omega (arith, h), omega (arith, h)))
  | inr early ↦ elim (Close-cases (a) (suc b)) [
    | inl close ↦ inl (
      ground arith,
      (
        omega (arith, h),
        omega (arith, h),
        omega (arith, h),
        omega (arith, h),
        omega (arith, h),
        close,
      ),
    )
    | inr apart ↦ inr (inl (ground arith, λ p. absurd (omega (arith, p.5, apart))))
  ]
]

module _ (env : Env) where
  open env use {Db}

  abbrev pub cards_of_loser : Game Db → CurrentMove → ℕ
  cards_of_loser g first_player_move = g.card_number1
  cards_of_loser g second_player_move = g.card_number2

  -- When a round is played with numbers of cards that allow it, and the loser of the round has fewer
  -- than 26 cards, the extra card makes either another round with such numbers, or the end of the game,
  -- which the loser of the round has lost, or a tie with 26 cards each. It never makes the other player
  -- lose the game.
  pub extra_card-decides :
      (g : Game Db) (cur : CurrentMove)
      → Playable g.card_number1 g.card_number2
      → cards_of_loser g cur < 26
      → Decided cur (add_card_to g cur).card_number1 (add_card_to g cur).card_number2
  unfolding add_card_to
  extra_card-decides g first_player_move h l =
      let next : (g.card_number1 + 1) % 256 ≡ suc g.card_number1 = omega (arith, l) in
      rw next (first-Decided g.card_number1 g.card_number2 h l)
  extra_card-decides g second_player_move h l =
      let next : (g.card_number2 + 1) % 256 ≡ suc g.card_number2 = omega (arith, l) in
      rw next (second-Decided g.card_number1 g.card_number2 h l)

  -- When a round is played with numbers of cards that allow it, and its loser has 26 cards,
  -- `player_loses_round` fails an `assert` of `game_result`.
  pub extra_card-faults :
      (g : Game Db) (cur : CurrentMove) (now : ℕ)
      → Playable g.card_number1 g.card_number2
      → cards_of_loser g cur ≡ 26
      → player_loses_round env g cur now ≡ fault
  unfolding add_card_to player_loses_round game_result
  extra_card-faults g first_player_move now h l = rw l refl
  extra_card-faults g second_player_move now h l = rw (l, le→leb g.card_number1 26 h.2) refl
