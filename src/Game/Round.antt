-- ===== src/Game/Round.antt =====
-- The rounds of a game, and its end, in CardBluffServer/game.cpp. What only goes to the log is left out.
use card_bluff.Prelude.{
  ℕ, zero, suc, ◌+◌, ◌/◌, ◌%◌, true, false, List, [], ◌∷◌, ◌++◌, none, some, ◌==◌, ltb, leb, ◌&&◌,
  ◌||◌, if◌then◌else◌, codes, Run, ok, fault, ◌>>=◌, ◌>>◌, assert,
}
use card_bluff.Prelude.Int.{ℤ, pos, ◌-ℤ◌}
use card_bluff.Text.{ll_to_string}
use card_bluff.Client.{wait_enter_game, set_in_game, set_state}
use card_bluff.Combinations.Kind
use card_bluff.Env.{Env}
use card_bluff.Ratings.{update_ratings}
use card_bluff.Game.State.{
  Game, CurrentMove, first_player_move, second_player_move, RoundResult, first_player_lost_round,
  second_player_lost_round, first_player_lost_game, second_player_lost_game, tie_in_game,
  finished_game, Seat, first_player, second_player, start_card_number, equality_card_number,
  tie_card_number, move_timeout, second, alternate_first_move, get_currently_moving_player,
  get_currently_not_moving_player,
}
use card_bluff.Game.State
use card_bluff.Game.Say.{
  tell, push_client_string_to_client, push_client_strings_to_both, push_client_strings_to_client,
  name,
}
use card_bluff.Game.Deal.{generate_cards, cards_to_string}

abbrev pub number_text : ℕ → List ℕ
number_text n = ll_to_string (pos n) false

-- lost player, 2 for a tie, 3 for a continuation
unfoldable pub game_result : ℕ → ℕ → Run ℕ
game_result n1 n2 = do
  assert (leb n1 tie_card_number)
  assert (leb n2 tie_card_number)
  assert (leb start_card_number n1)
  assert (leb start_card_number n2)
  ok (
      if n1 == tie_card_number && n2 == tie_card_number
      then 2
      else if ltb n1 equality_card_number && ltb n2 equality_card_number
          || n1 == n2
          || n1 + 1 == n2
          || n1 == n2 + 1
      then 3
      else if ltb n2 n1
      then 0
      else 1)

-- The `switch` of `player_loses_round`; `res` stays uninitialised on any other value.
unfoldable pub result_of : CurrentMove → ℕ → Run RoundResult
result_of cur zero = ok first_player_lost_game
result_of cur (suc zero) = ok second_player_lost_game
result_of cur (suc (suc zero)) = ok tie_in_game
result_of first_player_move (suc (suc (suc zero))) = ok first_player_lost_round
result_of second_player_move (suc (suc (suc zero))) = ok second_player_lost_round
result_of cur (suc (suc (suc (suc n)))) = fault

-- The line about one player: `lost` if the result is its loss of the game, else its number of cards.
unfoldable pub first_line : RoundResult → ℕ → List ℕ
first_line first_player_lost_game n = codes "Lost"
first_line first_player_lost_round n = number_text n ++ codes " :|"
first_line tie_in_game n = number_text n ++ codes " :facepalm:"
first_line _ n = number_text n

unfoldable pub second_line : RoundResult → ℕ → List ℕ
second_line second_player_lost_game n = codes "Lost"
second_line second_player_lost_round n = number_text n ++ codes " :|"
second_line tie_in_game n = number_text n ++ codes " :facepalm:"
second_line _ n = number_text n

module _ {Db : Type 0} where
  unfoldable pub send_next_move_prompts : Game Db → Game Db
  send_next_move_prompts g =
      let g₁ =
        push_client_string_to_client g
          (name g (get_currently_moving_player g)
            ++ codes ", you have "
            ++ number_text (move_timeout / second)
            ++ codes " seconds o move.")
          (get_currently_moving_player g) none in
      push_client_string_to_client g₁ (codes "Waiting for your opponent to move...")
        (get_currently_not_moving_player g) none

  unfoldable pub send_card_messages_to_owners : Game Db → Run (Game Db)
  send_card_messages_to_owners g = do
    text1 ← cards_to_string g.cards1
    let g₁ = tell g first_player text1
    text2 ← cards_to_string g.cards2
    ok (tell g₁ second_player text2)

  unfoldable pub send_card_messages_to_one_player : Game Db → Seat → Run (Game Db)
  send_card_messages_to_one_player g s = do
    let g₁ = push_client_string_to_client g (codes "Cards:") s none
    text1 ← cards_to_string g.cards1
    let g₂ = tell g₁ s (text1 ++ name g first_player ++ codes ": ")
    text2 ← cards_to_string g.cards2
    ok (tell g₂ s (text2 ++ name g second_player ++ codes ": "))

  unfoldable pub send_card_messages_to_both_players : Game Db → Run (Game Db)
  send_card_messages_to_both_players g = do
    g₁ ← send_card_messages_to_one_player g first_player
    send_card_messages_to_one_player g₁ second_player

  unfoldable pub send_card_numbers_to_one_player : Game Db → Seat → Game Db
  send_card_numbers_to_one_player g s =
      push_client_strings_to_client g
        (codes "Number of cards:"
          ∷ (name g first_player ++ codes ": " ++ number_text g.card_number1)
          ∷ (name g second_player ++ codes ": " ++ number_text g.card_number2)
          ∷ [])
        s none

  unfoldable pub send_card_numbers_to_both_players : Game Db → RoundResult → Game Db
  send_card_numbers_to_both_players g res =
      push_client_strings_to_both g
        (codes "Number of cards:"
          ∷ (name g first_player ++ codes ": " ++ first_line res g.card_number1)
          ∷ (name g second_player ++ codes ": " ++ second_line res g.card_number2)
          ∷ [])
        none

  unfoldable pub report_round_results : Game Db → RoundResult → Run (Game Db)
  report_round_results g res = do
    g₁ ← send_card_messages_to_both_players g
    ok (send_card_numbers_to_both_players g₁ res)

  -- `++card_number[cur]`, a `uint8_t`.
  unfoldable pub add_card_to : Game Db → CurrentMove → Game Db
  add_card_to g first_player_move = record g { card_number1 = (g.card_number1 + 1) % 256 }
  add_card_to g second_player_move = record g { card_number2 = (g.card_number2 + 1) % 256 }

  -- `buf[1]` and `buf[2]` of `finish`: a player, its rating and what was added to it.
  unfoldable pub rating_line : Game Db → Seat → ℤ → ℤ → List ℕ
  rating_line g s rating delta =
      name g s
      ++ codes ": "
      ++ ll_to_string rating false
      ++ codes " ("
      ++ ll_to_string delta true
      ++ codes ")"

  unfoldable pub send_ratings : Game Db → ℤ → ℤ → ℤ → Game Db
  send_ratings g first_rating second_rating delta =
      push_client_strings_to_both g
        (codes "Ratings:"
          ∷ rating_line g first_player first_rating delta
          ∷ rating_line g second_player second_rating (pos 0 -ℤ delta)
          ∷ [])
        none

  -- The end of `finish`.
  unfoldable pub leave_game : Game Db → Game Db
  leave_game g = record g {
    player1 = set_state (set_in_game g.player1 false) wait_enter_game;
    player2 = set_state (set_in_game g.player2 false) wait_enter_game;
    finished = true;
  }

module _ (env : Env) where
  open env use {Db, gnr}

  -- The rating part of `finish`: after a lost game the loser's rating falls and the winner's rises.
  unfoldable pub finish_ratings : Game Db → RoundResult → Run (Game Db)
  finish_ratings g first_player_lost_game =
      update_ratings env g.db g.player2.id g.player1.id >>= λ (db, u).
      let g₁ = record g { db = db } in
      elim u [
        | none ↦ ok g₁
        | some r ↦ ok (send_ratings g₁ r.loser_rating r.winner_rating (pos 0 -ℤ r.delta))
      ]
  finish_ratings g second_player_lost_game =
      update_ratings env g.db g.player1.id g.player2.id >>= λ (db, u).
      let g₁ = record g { db = db } in
      elim u [ none ↦ ok g₁ | some r ↦ ok (send_ratings g₁ r.winner_rating r.loser_rating r.delta) ]
  finish_ratings g _ = ok g

  unfoldable pub finish : Game Db → RoundResult → Run (Game Db)
  unfolding leave_game
  finish g res = finish_ratings g res >>= λ g₁. ok (leave_game g₁)

  unfoldable pub start_round : Game Db → ℕ → Run (Game Db)
  start_round g now = do
    let g₁ = record g {
      current_combination = Kind.nothing ∷ [];
      last_move = [];
      wants_tie1 = false;
      wants_tie2 = false;
    }
    g₂ ← generate_cards gnr (alternate_first_move g₁)
    g₃ ← send_card_messages_to_owners (record g₂ { move_start_time = now })
    ok (send_next_move_prompts g₃)

  unfoldable pub player_loses_round : Game Db → CurrentMove → ℕ → Run (Game Db)
  player_loses_round g cur now = do
    let g₁ = add_card_to g cur
    code ← game_result g₁.card_number1 g₁.card_number2
    res ← result_of cur code
    g₂ ← report_round_results g₁ res
    if finished_game res then finish g₂ res else start_round g₂ now

  unfoldable pub tie_in_round : Game Db → ℕ → Run (Game Db)
  tie_in_round g now = do g₁ ← report_round_results g State.tie_in_round; start_round g₁ now
