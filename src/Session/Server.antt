-- ===== src/Session/Server.antt =====
-- CardBluffServer/main.cpp: the messages and connections of all clients, and the search for opponents.
-- Each function is one turn of a thread, which nothing interrupts (`Session.Steps`).
use card_bluff.Prelude.{
  ℕ, suc, Bool, true, false, not, List, [], ◌∷◌, ◌++◌, Option, none, some, ◌==◌, ◌&&◌,
  if◌then◌else◌, codes, Run, ok, fault, ◌>>=◌,
}
use card_bluff.Client.{
  Client, ClientState, wait_nickname, wait_password_register_first, wait_password_register_second,
  wait_password, wait_enter_game, in_game_state, new_client, push_string, get_nickname_with_color,
  set_state, set_in_game, set_game, set_opponent, set_finding_duel, set_waiting_reconnect,
}
use card_bluff.Client.Sending.{copy_strings}
use card_bluff.Env.{Env, Crypto}
use card_bluff.Session.{
  Session, reading, awaiting, closing, Clients, Next, go_on, clean_up, hand_over, tell_opponent,
  game_command,
}
use card_bluff.Session.Message.{behind}
use card_bluff.Session.Login.{on_nickname, on_first_password, on_second_password, on_password}
use card_bluff.Session.Lobby.{in_lobby}

-- What the sessions ask of the games: `new Game(this, opponent)`, and the pushes of a client to the
-- queue of a game, by their addresses.
pub data GameCall : Type 0 where
  new_duel : ℕ → ℕ → ℕ → GameCall
  command : ℕ → ℕ → List ℕ → GameCall
  reconnected disconnected : ℕ → ℕ → GameCall

pub record Server (Db : Type 0) : Type 0 where
  pub db : Db
  pub clients : Clients
  -- All calls so far.
  pub calls : List GameCall
  -- The address of the next game.
  pub next_game : ℕ

unfoldable pub lookup : Clients → ℕ → Option Session
lookup [] a = none
lookup ((b, s) ∷ clients) a = let rest = lookup clients a in if b == a then some s else rest

unfoldable pub modify : Clients → ℕ → (Session → Session) → Clients
modify [] a f = []
modify ((b, s) ∷ clients) a f = (b, if b == a then f s else s) ∷ modify clients a f

-- `clients.erase(client)`.
unfoldable pub erase : Clients → ℕ → Clients
erase [] a = []
erase ((b, s) ∷ clients) a = let rest = erase clients a in if b == a then rest else (b, s) ∷ rest

-- `Client(client_socket)`, and the thread's variables; `Rand64` has given one number.
unfoldable pub new_session : ℕ → Session
unfolding new_client
new_session seed = record {
  client = new_client;
  new_password = [];
  id_buffer = none;
  seed = seed;
  drawn = 1;
  position = reading;
  reconnect_event = false;
}

abbrev pub closed : Session → Session
closed s = record s { position = closing }

-- `old_client` gets the texts and is awake again.
unfoldable pub resumed : Client → Session → Session
unfolding copy_strings set_waiting_reconnect
resumed c old = record old {
  client = set_waiting_reconnect (copy_strings c old.client).1 false;
  reconnect_event = true;
}

abbrev pub told : List ℕ → Session → Session
unfolding push_string
told text s = record s { client = push_string s.client text }

-- `enter_game` of two clients, with the new game; the two objects afterwards.
unfoldable pub enter_game : ℕ → ℕ → Client → ℕ → Client → Client × Client
unfolding set_in_game set_opponent set_state set_game
enter_game g a c b opponent = if c.in_game then (c, opponent) else (
  set_game (set_state (set_opponent (set_in_game c true) b) in_game_state) g,
  set_game (set_state (set_opponent (set_in_game opponent true) a) in_game_state) g,
)

abbrev pub seeks : Session → Bool
seeks s = s.client.finding_duel && not s.client.in_game

-- The loop of `find_opponent`, with the first client found, if any.
unfoldable pub find_pair : Option (ℕ × Session) → Clients → Option ((ℕ × Session) × (ℕ × Session))
find_pair first [] = none
find_pair none ((a, s) ∷ clients) =
    let found = find_pair (some (a, s)) clients in
    let rest = find_pair none clients in if seeks s then found else rest
find_pair (some first) ((a, s) ∷ clients) =
    let rest = find_pair (some first) clients in if seeks s then some (first, (a, s)) else rest

abbrev pub opponent_text : Client → List ℕ
unfolding get_nickname_with_color
opponent_text c = codes "SERVER: Your opponent is " ++ get_nickname_with_color c

-- What `find_opponent` does to a client before the game.
unfoldable pub found : Client → Client → Client
unfolding set_finding_duel push_string get_nickname_with_color
found c opponent = push_string (set_finding_duel c false) (opponent_text opponent)

-- The end of `Game::finish`, for one of its players: two setters, each with a mutex of its own in the source.
unfoldable pub left_game : Session → Session
unfolding set_state set_in_game
left_game s = record s { client = set_state (set_in_game s.client false) wait_enter_game }

-- A client that is not authorized is cleaned up; another one may reconnect.
unfoldable pub lost : Bool → Session → Session
unfolding set_waiting_reconnect
lost false s = closed s
lost true s = record s {
  client = set_waiting_reconnect s.client true;
  position = awaiting;
  reconnect_event = false;
}

module _ {Db : Type 0} where
  abbrev pub with_session : Server Db → ℕ → Session → Server Db
  unfolding modify
  with_session w a s = record w { clients = modify w.clients a (λ _. s) }

  unfoldable pub push_call : Server Db → GameCall → Server Db
  push_call w call = record w { calls = w.calls ++ call ∷ [] }

  -- The end of a message's handling.
  unfoldable pub deliver : Server Db → ℕ → Session → Next → Run (Server Db)
  unfolding modify erase resumed push_call push_string
  deliver w a s go_on = ok (with_session w a s)
  deliver w a s clean_up = ok (with_session w a (closed s))
  deliver w a s (hand_over old) =
      ok (record w { clients = erase (modify w.clients old (resumed s.client)) a })
  deliver w a s (tell_opponent text) = elim s.client.opponent [
    | none ↦ fault
    | some b ↦ ok (record w { clients = modify (modify w.clients a (λ _. s)) b (told text) })
  ]
  deliver w a s (game_command text) = elim s.client.game [
    | none ↦ fault
    | some g ↦ ok (push_call (with_session w a s) (command g a text))
  ]

  unfoldable pub find_opponent : Server Db → Server Db
  unfolding find_pair found enter_game modify push_call
  find_opponent w = elim (find_pair none w.clients) [
    | none ↦ w
    | some ((a, s), (b, t)) ↦
        let (c₁, c₂) =
          enter_game w.next_game a (found s.client t.client) b (found t.client s.client) in
        record w {
          clients =
              modify (modify w.clients a (λ _. record s { client = c₁ })) b
                (λ _. record t { client = c₂ });
          calls = w.calls ++ new_duel w.next_game a b ∷ [];
          next_game = suc w.next_game;
        }
  ]

  -- The socket of a client fails or is closed.
  unfoldable pub connection_lost : Server Db → ℕ → Session → Server Db
  unfolding modify lost
  connection_lost w a s = with_session w a (lost s.client.authorized s)

  unfoldable pub call_game : Server Db → ℕ → Session → (ℕ → ℕ → GameCall) → Run (Server Db)
  unfolding push_call
  call_game w a s call =
      if s.client.in_game
      then elim s.client.game [ none ↦ fault | some g ↦ ok (push_call w (call g a)) ]
      else ok w

  -- The reconnect event is set, and the thread goes on.
  unfoldable pub wake_up : Server Db → ℕ → Session → Run (Server Db)
  unfolding call_game modify
  wake_up w a s = call_game (with_session w a (record s { position = reading })) a s reconnected

  -- `RECONNECT_TIMEOUT` is over.
  unfoldable pub give_up : Server Db → ℕ → Session → Run (Server Db)
  unfolding call_game modify
  give_up w a s = call_game (with_session w a (closed s)) a s disconnected

module _ (env : Env) (crypto : Crypto) where
  open env use {Db}
  open crypto use {from_bytes}

  abbrev pub Handler : Type 0
  Handler = Clients → Db → Session → List ℕ → Run (Db × Session × Next)

  -- A message that does not begin with what the state waits for ends the session.
  unfoldable pub expect : List ℕ → Handler → Handler
  unfolding behind
  expect prefix handler clients db s text = elim (behind prefix text) [
    | none ↦ ok (db, s, clean_up)
    | some rest ↦ handler clients db s rest
  ]

  -- The `switch` over the state.
  unfoldable pub handle : ClientState → Handler
  unfolding expect on_nickname on_first_password on_second_password on_password in_lobby
  handle wait_nickname = expect (codes "nickname:") (on_nickname env crypto)
  handle wait_password_register_first =
      expect (codes "password_first:") (on_first_password env crypto)
  handle wait_password_register_second =
      expect (codes "password_second:") (on_second_password env crypto)
  handle wait_password = expect (codes "password:") (on_password env crypto)
  handle _ = λ clients. in_lobby env crypto

  -- A message of a client, as bytes.
  unfoldable pub receive : Server Db → ℕ → Session → List ℕ → Run (Server Db)
  unfolding handle deliver
  receive w a s bytes = elim (from_bytes bytes) [
    | none ↦ deliver w a s clean_up
    | some text ↦ do
      (db, t, next) ← handle s.client.state w.clients w.db s text
      deliver (record w { db = db }) a t next
  ]
