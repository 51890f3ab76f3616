-- ===== src/Game/Move.antt =====
-- `Game::make_move` of CardBluffServer/game.cpp: what a player's command does. `now` is the time at which
-- it is handled. What only goes to the log is left out.
use card_bluff.Prelude.{
  ℕ, ◌/◌, ◌%◌, true, false, List, [], ◌++◌, none, some, ltb, ◌&&◌, ◌||◌, if◌then◌else◌, list_eq,
  map, take, drop, codes, Run, ok, ◌>>=◌,
}
use card_bluff.Text.{remove_space_characters, escape_special_chars}
use card_bluff.Combinations.Best.{
  is_combination_nothing, is_best_combination, find_best_combination,
}
use card_bluff.Combinations.Check.{check_combination}
use card_bluff.Combinations.Order.{less_combination}
use card_bluff.Combinations.Command.Parse.{parsed, refused, parse_m_command, transcript_text}
use card_bluff.Combinations.Command.Format.{format_m_command}
use card_bluff.Env.{Env}
use card_bluff.Game.State.{
  Game, Command, first_player_lost_game, second_player_lost_game, tie_in_game, RoundResult, Seat,
  first_player, second_player, other, negate_current_move, makes_current_move,
  get_currently_moving_player, get_currently_not_moving_player, alternate_current_move,
  get_remaining_move_time,
}
use card_bluff.Game.Say.{tell, push_client_string_to_client, push_client_string_to_both, name}
use card_bluff.Game.Deal.{cards_to_string}
use card_bluff.Game.Round.{
  number_text, report_round_results, finish, player_loses_round, tie_in_round,
  send_next_move_prompts,
}

-- `tr`: the remaining time in tenths of a second, and its text.
abbrev pub tenths : ℕ → ℕ
tenths remaining = remaining / 100_000

unfoldable pub tr_text : ℕ → List ℕ
tr_text tr =
    number_text (tr / 10)
    ++ codes "."
    ++ number_text (tr % 10)
    ++ codes " second"
    ++ (if ltb 10 tr then codes "s" else [])
    ++ codes " to move."

-- `client == first_player ? FIRST_PLAYER_LOST_GAME : SECOND_PLAYER_LOST_GAME`.
abbrev pub loses_game : Seat → RoundResult
loses_game first_player = first_player_lost_game
loses_game second_player = second_player_lost_game

module _ {Db : Type 0} where
  unfoldable pub cards_of : Game Db → Seat → List ℕ
  cards_of g first_player = g.cards1
  cards_of g second_player = g.cards2

  -- "/tr".
  unfoldable pub tell_time : Game Db → Seat → ℕ → Game Db
  tell_time g s now =
      let text = tr_text (tenths (get_remaining_move_time g now)) in
      if makes_current_move g s
      then push_client_string_to_client g (name g s ++ codes ", you have " ++ text) s none
      else push_client_string_to_client g
          (name g (get_currently_moving_player g) ++ codes " has " ++ text) s none

  -- "/lastmove".
  unfoldable pub tell_last_move : Game Db → Seat → Game Db
  unfolding list_eq
  tell_last_move g s =
      if list_eq g.last_move []
      then push_client_string_to_client g (codes "No moves have been made in this round yet.") s
          none
      else push_client_string_to_client g
          (codes "Last move: "
            ++ g.last_move
            ++ codes " ("
            ++ name g (get_currently_not_moving_player g)
            ++ codes ")")
          s none

  -- The assignment to `first_player_wants_tie` or `second_player_wants_tie`.
  unfoldable pub want_tie : Game Db → Seat → Game Db
  want_tie g first_player = record g { wants_tie1 = true }
  want_tie g second_player = record g { wants_tie2 = true }

  -- An accepted bet.
  unfoldable pub accept_bet : Game Db → List ℕ → List ℕ → ℕ → Game Db
  accept_bet g combination formatted t = send_next_move_prompts (
      alternate_current_move (record g {
        move_start_time = t;
        last_move = formatted;
        wants_tie1 = false;
        wants_tie2 = false;
        current_combination = combination;
      }))

  -- "/m", with the text after it. `cws` is the command with no white space.
  unfoldable pub bet : Game Db → Seat → List ℕ → ℕ → Run (Game Db)
  bet g s cws t = elim (parse_m_command (drop 2 cws)) [
    | refused transcript ↦ ok (
        push_client_string_to_client g
          (name g s ++ codes ", " ++ escape_special_chars (transcript_text transcript) ++ codes ".")
          s none)
    | parsed combination ↦
        let formatted = take 2 cws ++ codes " " ++ drop 2 cws in
        let g₁ =
          push_client_string_to_client g formatted (get_currently_not_moving_player g) (some s) in
        less_combination g₁.current_combination combination >>= λ rises. ok (
          if rises
          then accept_bet g₁ combination formatted t
          else push_client_string_to_client g₁
              (name g₁ s ++ codes ", текущая комбинация не хуже введённой вами.") s none)
  ]

module _ (env : Env) where
  open env use {Db, towlower}

  unfoldable pub concede : Game Db → Seat → List ℕ → Run (Game Db)
  concede g s lcws = do
    let g₁ = push_client_string_to_client g lcws (other s) (some s)
    let g₂ = push_client_string_to_client g₁ (codes "You conceded!") s none
    let g₃ = push_client_string_to_client g₂ (name g₂ s ++ codes " conceded!") (other s) none
    g₄ ← report_round_results g₃ (loses_game s)
    finish env g₄ (loses_game s)

  -- "/tie" and "/draw".
  unfoldable pub offer_tie : Game Db → Seat → List ℕ → Run (Game Db)
  offer_tie g s lcws =
      let g₁ = want_tie (push_client_string_to_client g lcws (other s) (some s)) s in
      if g₁.wants_tie1 && g₁.wants_tie2
      then (do
        let g₂ =
            push_client_string_to_both g₁ (codes "Both you and your opponent agreed to a draw.")
              none
        g₃ ← report_round_results g₂ tie_in_game
        finish env g₃ tie_in_game)
      else ok g₁

  -- "/r".
  unfoldable pub reveal : Game Db → Seat → List ℕ → ℕ → Run (Game Db)
  reveal g s lcws now = do
    let g₁ = push_client_string_to_client g lcws (get_currently_not_moving_player g) (some s)
    no_bet ← is_combination_nothing g₁.current_combination
    if no_bet
        then ok (
            push_client_string_to_client g₁
              (name g₁ s ++ codes ", запрещено вскрываться на первом ходу.") s none)
        else (do
          here ← check_combination g₁.union_of_cards g₁.current_combination
          if here
              then (let g₂ =
                    push_client_string_to_both g₁
                      (name g₁ s ++ codes ", здесь есть эта комбинация.") none in
                  player_loses_round env g₂ g₂.current_move now)
              else (let g₂ =
                    push_client_string_to_both g₁
                      (name g₁ s ++ codes ", здесь нет этой комбинации.") none in
                  player_loses_round env g₂ (negate_current_move g₂.current_move) now))

  -- The rest of "/b" where the bet is not the best combination.
  unfoldable pub block_failed : Game Db → Seat → ℕ → Run (Game Db)
  block_failed g s now = do
    here ← check_combination g.union_of_cards g.current_combination
    let verdict =
        if here then codes ", это не лучшая комбинация." else codes ", этой комбинации здесь нет."
    let g₁ = push_client_string_to_both g (name g s ++ verdict) none
    best ← find_best_combination g₁.union_of_cards
    text ← format_m_command best
    let g₂ = push_client_string_to_both g₁ (codes "Best combination: " ++ text) none
    player_loses_round env g₂ g₂.current_move now

  -- "/b".
  unfoldable pub block : Game Db → Seat → List ℕ → ℕ → Run (Game Db)
  block g s lcws now = do
    let g₁ = push_client_string_to_client g lcws (get_currently_not_moving_player g) (some s)
    no_bet ← is_combination_nothing g₁.current_combination
    if no_bet
        then ok (
            push_client_string_to_client g₁
              (name g₁ s ++ codes ", запрещено блокировать на первом ходу.") s none)
        else (do
          best ← is_best_combination g₁.union_of_cards g₁.current_combination
          if best
              then (let g₂ =
                    push_client_string_to_both g₁ (name g₁ s ++ codes ", это лучшая комбинация.")
                      none in
                  tie_in_round env g₂ now)
              else block_failed g₁ s now)

  -- The commands of the player whose move it is.
  unfoldable pub move_of_mover : Game Db → Command → List ℕ → List ℕ → ℕ → Run (Game Db)
  unfolding list_eq
  move_of_mover g c cws lcws now =
      if list_eq lcws (codes "/r")
      then reveal g c.sender lcws now
      else if list_eq lcws (codes "/b")
      then block g c.sender lcws now
      else if list_eq (take 2 lcws) (codes "/m")
      then bet g c.sender cws c.t
      else ok
          (push_client_string_to_client g c.cmd (get_currently_not_moving_player g) (some c.sender))

  unfoldable pub make_move : Game Db → Command → ℕ → Run (Game Db)
  unfolding list_eq
  make_move g c now =
      let cws = remove_space_characters c.cmd in
      let lcws = map towlower cws in
      if list_eq lcws (codes "/concede")
      then concede g c.sender lcws
      else if list_eq lcws (codes "/tie") || list_eq lcws (codes "/draw")
      then offer_tie g c.sender lcws
      else if list_eq lcws (codes "/tr")
      then ok (tell_time g c.sender now)
      else if list_eq lcws (codes "/cards")
      then (cards_to_string (cards_of g c.sender) >>= λ text. ok (tell g c.sender text))
      else if list_eq lcws (codes "/lastmove") || list_eq lcws (codes "/lm")
      then ok (tell_last_move g c.sender)
      else if makes_current_move g c.sender
      then move_of_mover g c cws lcws now
      else ok (
          push_client_string_to_client g (codes "It's not your move now!")
            (get_currently_not_moving_player g) none)
