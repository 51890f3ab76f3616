-- ===== src/Game/Heard.antt =====
-- What the players of CardBluffServer/game.cpp are told, said without the functions that send it.
use card_bluff.Prelude.{ℕ, ◌≡◌, refl, ap, ◌∙◌, List, [], ◌∷◌, ◌++◌, none, some, codes}
use mathlib.Core.List.{append_assoc}
use card_bluff.Client.{Client, push_string, get_nickname_with_color}
use card_bluff.Game.State.{
  Game, Seat, first_player, second_player, client, CurrentMove, first_player_move,
  second_player_move, negate_current_move, other, seat_of, get_currently_not_moving_player,
}
use card_bluff.Game.Say.{
  tell, push_string_to_both, push_client_string_to_client, push_client_string_to_both, addend, name,
}

-- The move of the other player, and the player who waits.
abbrev pub opposite : CurrentMove → CurrentMove
opposite first_player_move = second_player_move
opposite second_player_move = first_player_move

abbrev pub waiting : CurrentMove → Seat
waiting first_player_move = second_player
waiting second_player_move = first_player

-- A client with a text more at the end of its queue.
abbrev pub queued : Client → List ℕ → Client
queued c text = record c { send_queue = c.send_queue ++ text ∷ [] }

pub negate_current_move-opposite : (m : CurrentMove) → negate_current_move m ≡ opposite m
unfolding negate_current_move
negate_current_move-opposite first_player_move = refl
negate_current_move-opposite second_player_move = refl

other-waiting : (m : CurrentMove) → other (seat_of m) ≡ waiting m
other-waiting first_player_move = refl
other-waiting second_player_move = refl

-- A line that the server says, and one that a player says.
abbrev pub server_line : List ℕ → List ℕ
server_line text = codes "SERVER: " ++ text

module _ {Db : Type 0} where
  abbrev pub hear : Game Db → Seat → List ℕ → Game Db
  hear g first_player text = record g { player1 = queued g.player1 text }
  hear g second_player text = record g { player2 = queued g.player2 text }

  -- The players hear texts, one after the other, and nothing else changes.
  abbrev pub heard : Game Db → List (Seat × List ℕ) → Game Db
  heard g [] = g
  heard g ((s, text) ∷ texts) = heard (hear g s text) texts

  abbrev pub player_line : Game Db → Seat → List ℕ → List ℕ
  player_line g s text = codes "USER " ++ get_nickname_with_color (client g s) ++ codes ": " ++ text

  tell-hear : (g : Game Db) (s : Seat) (text : List ℕ) → tell g s text ≡ hear g s text
  unfolding tell push_string
  tell-hear g first_player text = refl
  tell-hear g second_player text = refl

  pub server-hear :
      (g : Game Db) (s : Seat) (text : List ℕ)
      → push_client_string_to_client g text s none ≡ hear g s (server_line text)
  unfolding push_client_string_to_client addend
  server-hear g s text = tell-hear g s (server_line text)

  pub player-hear :
      (g : Game Db) (s from : Seat) (text : List ℕ)
      → push_client_string_to_client g text s (some from) ≡ hear g s (player_line g from text)
  unfolding push_client_string_to_client addend
  player-hear g s from text =
      let start =
        append_assoc (codes "USER " ++ get_nickname_with_color (client g from)) (codes ":")
          (codes " ") in
      tell-hear g s _ ∙ ap (λ prefix. hear g s (prefix ++ text)) start

  pub both-heard :
      (g : Game Db) (text : List ℕ)
      → push_client_string_to_both g text none
        ≡ heard g ((first_player, server_line text) ∷ (second_player, server_line text) ∷ [])
  unfolding push_client_string_to_both push_string_to_both addend tell push_string
  both-heard g text = refl

  pub hear-move :
      (g : Game Db) (s : Seat) (text : List ℕ) → (hear g s text).current_move ≡ g.current_move
  hear-move g first_player text = refl
  hear-move g second_player text = refl

  pub heard-move :
      (g : Game Db) (texts : List (Seat × List ℕ)) → (heard g texts).current_move ≡ g.current_move
  heard-move g [] = refl
  heard-move g ((s, text) ∷ texts) = heard-move (hear g s text) texts ∙ hear-move g s text

  -- Nobody gets another name by what is said.
  pub name-hear : (g : Game Db) (r s : Seat) (text : List ℕ) → name (hear g r text) s ≡ name g s
  unfolding name get_nickname_with_color
  name-hear g first_player first_player text = refl
  name-hear g first_player second_player text = refl
  name-hear g second_player first_player text = refl
  name-hear g second_player second_player text = refl

  pub not_moving-waiting :
      (g : Game Db) → get_currently_not_moving_player g ≡ waiting g.current_move
  unfolding get_currently_not_moving_player
  not_moving-waiting g = other-waiting g.current_move
