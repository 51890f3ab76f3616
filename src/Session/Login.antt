-- ===== src/Session/Login.antt =====
-- The states of `client_to_server` in CardBluffServer/main.cpp before a client is authorized: nickname,
-- password, and registration. A function takes the clients, the database, the session and the text
-- behind the message's prefix.
use card_bluff.Prelude.{
  ℕ, suc, Bool, true, false, not, List, [], ◌∷◌, ◌++◌, Option, none, some, ◌==◌, ◌&&◌,
  if◌then◌else◌, list_eq, codes, Run, ok, fault, ◌>>=◌,
}
use card_bluff.Prelude.Int.{ℤ}
use card_bluff.Client.{
  Client, wait_password_register_first, wait_password_register_second, wait_password,
  wait_enter_game, push_string, push_string_format, get_nickname_with_color, set_nickname, set_id,
  set_state, set_authorized,
}
use card_bluff.Env.{Env, Crypto}
use card_bluff.Database.Clients.{
  db_add_client, db_get_id_by_nickname, db_get_password, converted, Found,
}
use card_bluff.Session.{Session, Clients, Next, go_on, clean_up, hand_over, salt_text}

-- The first client of the set that passes a test.
unfoldable pub find_client : (Client → Bool) → Clients → Option ℕ
find_client test [] = none
find_client test ((a, s) ∷ clients) =
    let rest = find_client test clients in if test s.client then some a else rest

unfoldable pub find_nickname_authorized : Clients → List ℕ → Option ℕ
unfolding find_client list_eq
find_nickname_authorized clients nickname =
    find_client (λ c. list_eq c.nickname nickname && c.authorized && not c.waiting_reconnect)
      clients

unfoldable pub find_nickname_waiting_reconnect : Clients → List ℕ → Option ℕ
unfolding find_client list_eq
find_nickname_waiting_reconnect clients nickname =
    find_client (λ c. list_eq c.nickname nickname && c.waiting_reconnect) clients

module _ (env : Env) (crypto : Crypto) where
  open env use {Db}
  open crypto use {to_bytes, sha256, rand64}

  -- `random.get_last()`, as text.
  abbrev pub last_salt : Session → List ℕ
  last_salt s = salt_text (rand64 s.seed s.drawn)

  -- `from_bytes(sha256(to_bytes(text)))`.
  unfoldable pub hashed : List ℕ → Run (List ℕ)
  hashed text = converted env crypto (sha256 (to_bytes text))

  -- `random.generate()`, and the request that ends with the new number.
  unfoldable pub request_salted : Session → List ℕ → Run Session
  unfolding push_string_format
  request_salted s request = do
    let next = record s { drawn = suc s.drawn }
    c ← push_string_format next.client (request ++ last_salt next)
    ok (record next { client = c })

  unfoldable pub ask_password : Session → Run Session
  unfolding request_salted push_string set_state
  ask_password s = do
    let asked = record s { client = push_string s.client (codes "SERVER: Please enter password.") }
    t ← request_salted asked (codes "password?")
    ok (record t { client = set_state t.client wait_password })

  unfoldable pub ask_new_password : Session → Run Session
  unfolding push_string_format push_string get_nickname_with_color set_state
  ask_new_password s = do
    c ← push_string_format s.client (
        codes "SERVER: You are a new user, "
        ++ get_nickname_with_color s.client
        ++ codes ". Please enter your password to register.")
    ok (record s {
      client = set_state (push_string c (codes "password_first?")) wait_password_register_first;
    })

  unfoldable pub on_nickname : Clients → Db → Session → List ℕ → Run (Db × Session × Next)
  unfolding find_nickname_authorized db_get_id_by_nickname set_nickname ask_password
      ask_new_password
  on_nickname clients db s nick = elim (find_nickname_authorized clients nick) [
    | some a ↦ ok (db, s, clean_up)
    | none ↦ do
      let named = record s { client = set_nickname s.client nick }
      (db₁, code, found) ← db_get_id_by_nickname env crypto db nick s.id_buffer
      let known = record named { id_buffer = found.1 }
      if code == 0
          then (do
            t ← (if found.0 then ask_password known else ask_new_password known)
            ok (db₁, t, go_on))
          else ok (db₁, known, clean_up)
  ]

  unfoldable pub on_first_password : Clients → Db → Session → List ℕ → Run (Db × Session × Next)
  unfolding push_string request_salted set_state
  on_first_password clients db s text = do
    let asked = record s {
      client = push_string s.client (codes "SERVER: Please re-enter your password.");
      new_password = text;
    }
    t ← request_salted asked (codes "password_second?")
    ok (db, record t { client = set_state t.client wait_password_register_second }, go_on)

  -- "auth_ok!" and the welcome; the client is authorized.
  unfoldable pub welcome : Client → List ℕ → Client
  unfolding push_string get_nickname_with_color set_authorized
  welcome c ending =
      set_authorized
        (push_string (push_string c (codes "auth_ok!"))
          (codes "SERVER: Welcome, " ++ get_nickname_with_color c ++ ending))
        true

  -- "auth_fail!", before the clean-up.
  unfoldable pub refuse : Session → Session
  unfolding push_string
  refuse s = record s { client = push_string s.client (codes "auth_fail!") }

  -- What follows the reading of the id of a registered client.
  unfoldable pub registered : Db → Session → Found → Run (Db × Session × Next)
  unfolding set_id set_state
  registered db s (false, id) = ok (db, s, clean_up)
  registered db s (true, none) = fault
  registered db s (true, some id) =
      ok (db, record s { client = set_state (set_id s.client id) wait_enter_game }, go_on)

  -- The id is read back after the registration.
  unfoldable pub enter_registered : Db → Session → Run (Db × Session × Next)
  unfolding db_get_id_by_nickname registered
  enter_registered db s = do
    (db₁, code, found) ← db_get_id_by_nickname env crypto db s.client.nickname s.id_buffer
    let known = record s { id_buffer = found.1 }
    if code == 0 then registered db₁ known found else ok (db₁, known, clean_up)

  unfoldable pub on_second_password : Clients → Db → Session → List ℕ → Run (Db × Session × Next)
  unfolding hashed db_add_client welcome enter_registered refuse list_eq
  on_second_password clients db s text = do
    pass ← hashed (s.new_password ++ last_salt s)
    if list_eq pass text
        then (do
          (db₁, code) ← db_add_client env crypto db s.client.nickname s.new_password
          if code == 0
              then enter_registered db₁
                  (record s { client = welcome s.client (codes "! You are registered now.") })
              else ok (db₁, s, clean_up))
        else ok (db, refuse s, clean_up)

  -- A client of that nickname that waits for a reconnection gets the socket.
  unfoldable pub enter_known : Clients → Db → Session → ℤ → Run (Db × Session × Next)
  unfolding find_nickname_waiting_reconnect set_id set_state
  enter_known clients db s id = elim (find_nickname_waiting_reconnect clients s.client.nickname) [
    | some old_client ↦ ok (db, s, hand_over old_client)
    | none ↦ ok (db, record s { client = set_state (set_id s.client id) wait_enter_game }, go_on)
  ]

  -- On the value of `id_buffer`.
  unfoldable pub answer_password :
      Clients → Db → Session → List ℕ → Option ℤ → Run (Db × Session × Next)
  unfolding db_get_password hashed enter_known welcome refuse list_eq
  answer_password clients db s text none = fault
  answer_password clients db s text (some id) = do
    (db₁, code, stored) ← db_get_password env crypto db id
    if code == 0
        then (do
          pass ← hashed (stored ++ last_salt s)
          if list_eq pass text
              then enter_known clients db₁ (record s { client = welcome s.client (codes "!") }) id
              else ok (db₁, refuse s, clean_up))
        else ok (db₁, s, clean_up)

  unfoldable pub on_password : Clients → Db → Session → List ℕ → Run (Db × Session × Next)
  unfolding answer_password
  on_password clients db s text = answer_password clients db s text s.id_buffer
