-- ===== src/Client.antt =====
-- The class `Client` of CardBluffServer/client.h and client.cpp: what the server keeps of a connected
-- player, and the queue of the texts to be sent. The handles (socket, mutexes, events, threads) are
-- left out: each method runs under its mutex, so its effect on the fields is one step.
pub mod Sending
use card_bluff.Prelude.{
  ℕ, Bool, false, List, [], ◌∷◌, ◌++◌, Option, none, some, length, ltb, if◌then◌else◌, Run, ok,
  fault,
}
use card_bluff.Prelude.Int.{ℤ, pos}
use card_bluff.Text.{color_that_thing}

pub data ClientState : Type 0 where
  wait_nickname wait_password_register_first wait_password_register_second : ClientState
  wait_password wait_enter_game wait_opponent in_game_state : ClientState

pub record Client : Type 0 where
  pub nickname : List ℕ
  pub id : ℤ
  pub state : ClientState
  -- The addresses of the game and of the other player, if any.
  pub game : Option ℕ
  pub opponent : Option ℕ
  pub waiting_reconnect : Bool
  pub finding_duel : Bool
  pub in_game : Bool
  pub authorized : Bool
  pub send_queue : List (List ℕ)

-- `Client(socket)`.
unfoldable pub new_client : Client
new_client = record {
  nickname = [];
  id = pos 0;
  state = wait_nickname;
  game = none;
  opponent = none;
  waiting_reconnect = false;
  finding_duel = false;
  in_game = false;
  authorized = false;
  send_queue = [];
}

unfoldable pub push_string : Client → List ℕ → Client
push_string c str = record c { send_queue = c.send_queue ++ str ∷ [] }

unfoldable pub push_strings : Client → List (List ℕ) → Client
push_strings c [] = c
push_strings c (s ∷ str) = push_strings (record c { send_queue = c.send_queue ++ s ∷ [] }) str

unfoldable pub get_nickname_with_color : Client → List ℕ
get_nickname_with_color c = color_that_thing c.nickname

unfoldable pub set_in_game : Client → Bool → Client
set_in_game c b = record c { in_game = b }

unfoldable pub set_state : Client → ClientState → Client
set_state c s = record c { state = s }

unfoldable pub set_nickname : Client → List ℕ → Client
set_nickname c nickname = record c { nickname = nickname }

unfoldable pub set_id : Client → ℤ → Client
set_id c id = record c { id = id }

unfoldable pub set_game : Client → ℕ → Client
set_game c game = record c { game = some game }

unfoldable pub set_opponent : Client → ℕ → Client
set_opponent c opponent = record c { opponent = some opponent }

unfoldable pub set_finding_duel : Client → Bool → Client
set_finding_duel c b = record c { finding_duel = b }

unfoldable pub set_authorized : Client → Bool → Client
set_authorized c b = record c { authorized = b }

unfoldable pub set_waiting_reconnect : Client → Bool → Client
set_waiting_reconnect c b = record c { waiting_reconnect = b }

-- `push_string_format` of a text that is already put together: `vswprintf` into `wchar_t c_str[1024]`
-- writes a text of 1024 characters or more past the end.
unfoldable pub push_string_format : Client → List ℕ → Run Client
unfolding push_string
push_string_format c text = if ltb (length text) 1024 then ok (push_string c text) else fault
