-- ===== src/Game/Process.antt =====
-- `Game::process` of CardBluffServer/game.cpp, one round of the loop of `game_thread` in main.cpp, and the
-- constructor. `now` is read before the command is handled, and `later` while it is.
use card_bluff.Prelude.{
  ℕ, ◌%◌, Bool, true, false, List, [], ◌∷◌, ◌++◌, none, ◌==◌, ◌&&◌, if◌then◌else◌, codes, Run, ok,
  ◌>>=◌,
}
use card_bluff.Client.{Client}
use card_bluff.Combinations.Hand.{empty_hand}
use card_bluff.Env.{Env}
use card_bluff.Game.State.{
  Game, Command, CommandType, move_command, reconnect, disconnect, first_player_move,
  second_player_move, tie_in_game, Seat, other, start_card_number, makes_current_move,
  get_currently_moving_player, get_remaining_move_time,
}
use card_bluff.Game.Say.{tell, push_client_string_to_client, name}
use card_bluff.Game.Deal.{cards_to_string}
use card_bluff.Game.Round.{
  report_round_results, finish, player_loses_round, send_card_numbers_to_one_player,
}
use card_bluff.Game.Move.{tenths, tr_text, loses_game, cards_of, make_move}

module _ (env : Env) where
  open env use {Db, gnr}

  -- The constructor. What it leaves uninitialised is written by `start_round` before it is read.
  unfoldable pub new_game : Db → Client → Client → Run (Game Db)
  new_game db a b = do
    hand ← empty_hand
    ok (record {
      db = db;
      command_queue = [];
      move_start_time = 0;
      finished = false;
      player1 = a;
      player2 = b;
      card_number1 = start_card_number;
      card_number2 = start_card_number;
      union_of_cards = hand;
      cards1 = [];
      cards2 = [];
      wants_tie1 = false;
      wants_tie2 = false;
      current_move = first_player_move;
      first_move = if gnr 0 % 2 == 1 then first_player_move else second_player_move;
      drawn = 1;
      current_combination = [];
      last_move = [];
    })

  unfoldable pub on_reconnect : Game Db → Seat → ℕ → Run (Game Db)
  on_reconnect g s later = do
    let g₁ = push_client_string_to_client g (codes "You are still in game!") s none
    let g₂ = send_card_numbers_to_one_player g₁ s
    text ← cards_to_string (cards_of g₂ s)
    let g₃ = tell g₂ s text
    ok (
        if makes_current_move g₃ s
        then push_client_string_to_client g₃
            (name g₃ s
              ++ codes ", you have "
              ++ tr_text (tenths (get_remaining_move_time g₃ later)))
            s none
        else push_client_string_to_client g₃ (codes "Waiting for your opponent to move...") s none)

  unfoldable pub on_disconnect : Game Db → Seat → Run (Game Db)
  on_disconnect g s = do g₁ ← report_round_results g (loses_game s); finish env g₁ (loses_game s)

  -- The `switch` on the type of the command.
  unfoldable pub handle : Game Db → Command → CommandType → ℕ → Run (Game Db)
  handle g c move_command later = make_move env g c later
  handle g c reconnect later = on_reconnect g c.sender later
  handle g c disconnect later = on_disconnect g c.sender

  -- The first command of the queue, if any.
  unfoldable pub handle_next : Game Db → List Command → ℕ → Run (Game Db)
  unfolding handle
  handle_next g [] later = ok g
  handle_next g (c ∷ queue) later = handle (record g { command_queue = queue }) c c.kind later

  unfoldable pub on_timeout : Game Db → ℕ → Run (Game Db)
  on_timeout g later = do
    let mover = get_currently_moving_player g
    let g₁ =
        push_client_string_to_client g
          (name g mover ++ codes ", you haven't done your move in time!") mover none
    let g₂ =
        push_client_string_to_client g₁ (name g₁ mover ++ codes " hasn't done the move in time!")
          (other mover) none
    if g₂.card_number1 == start_card_number && g₂.card_number2 == start_card_number
        then (do g₃ ← report_round_results g₂ tie_in_game; finish env g₃ tie_in_game)
        else player_loses_round env g₂ g₂.current_move later

  -- The second part of `process`: the clock.
  unfoldable pub check_clock : Game Db → ℕ → ℕ → Run (Game Db × Bool)
  check_clock g now later =
      if g.finished
      then ok (g, true)
      else if get_remaining_move_time g now == 0
      then (on_timeout g later >>= λ g₁. ok (g₁, false))
      else ok (g, false)

  -- The new state, and `*_terminate`. A disconnect sets `*_terminate` itself, and finishes the game.
  unfoldable pub process : Game Db → ℕ → ℕ → Run (Game Db × Bool)
  process g now later = handle_next g g.command_queue later >>= λ g₁. check_clock g₁ now later
