-- ===== src/Game/Say.antt =====
-- The functions of CardBluffServer/game.cpp that put texts into the players' queues.
use card_bluff.Prelude.{ℕ, List, ◌++◌, Option, none, some, map, codes}
use card_bluff.Client.{push_string, push_strings, get_nickname_with_color}
use card_bluff.Game.State.{Game, Seat, first_player, second_player, client, with_client}

module _ {Db : Type 0} where
  -- `client->push_string(str)` and `client->push_strings(str)`.
  unfoldable pub tell : Game Db → Seat → List ℕ → Game Db
  unfolding push_string
  tell g s str = with_client g s (push_string (client g s) str)

  unfoldable pub tell_all : Game Db → Seat → List (List ℕ) → Game Db
  tell_all g s str = with_client g s (push_strings (client g s) str)

  unfoldable pub push_string_to_both : Game Db → List ℕ → Game Db
  unfolding tell
  push_string_to_both g str = tell (tell g first_player str) second_player str

  unfoldable pub push_strings_to_both : Game Db → List (List ℕ) → Game Db
  unfolding tell_all
  push_strings_to_both g str = tell_all (tell_all g first_player str) second_player str

  -- `addend`: `SERVER_PREFIX`, or `USER_PREFIX` and the sender's name.
  unfoldable pub addend : Game Db → Option Seat → List ℕ
  addend g none = codes "SERVER:"
  addend g (some s) = codes "USER " ++ get_nickname_with_color (client g s) ++ codes ":"

  unfoldable pub push_client_string_to_both : Game Db → List ℕ → Option Seat → Game Db
  unfolding push_string_to_both
  push_client_string_to_both g str from = push_string_to_both g (addend g from ++ codes " " ++ str)

  unfoldable pub push_client_strings_to_both : Game Db → List (List ℕ) → Option Seat → Game Db
  unfolding push_strings_to_both
  push_client_strings_to_both g str from =
      push_strings_to_both g (map (λ s. addend g from ++ codes " " ++ s) str)

  unfoldable pub push_client_string_to_client : Game Db → List ℕ → Seat → Option Seat → Game Db
  unfolding tell
  push_client_string_to_client g str receiver from =
      tell g receiver (addend g from ++ codes " " ++ str)

  unfoldable pub push_client_strings_to_client :
      Game Db → List (List ℕ) → Seat → Option Seat → Game Db
  unfolding tell_all
  push_client_strings_to_client g str receiver from =
      tell_all g receiver (map (λ s. addend g from ++ codes " " ++ s) str)

  -- The player's name as it stands in the messages.
  unfoldable pub name : Game Db → Seat → List ℕ
  name g s = get_nickname_with_color (client g s)
