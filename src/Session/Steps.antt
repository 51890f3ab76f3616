-- ===== src/Session/Steps.antt =====
-- The server of CardBluffServer/main.cpp as a transition system, where the threads take turns, in any
-- order. A turn is the handling of a whole message, a whole search for opponents, or the whole end of a
-- game. In the source each setter of a client has its own mutex, and a thread may also be interrupted
-- between two of them: `Session.Races` has what follows for "/findduel".
use card_bluff.Prelude.{ℕ, ◌≡◌, ◌≢◌, true, List, [], ◌∷◌, none, some, ok, ◌==◌, if◌then◌else◌}
use card_bluff.Client.{in_game_state}
use card_bluff.Env.{Env, Crypto}
use card_bluff.Session.{Session, Clients, reading, awaiting, closing}
use card_bluff.Session.Server.{
  Server, lookup, modify, erase, new_session, left_game, receive, find_opponent, connection_lost,
  wake_up, give_up,
}

-- The addresses of the set are different.
abbrev pub Distinct : Clients → Type 0
Distinct [] = Unit
Distinct ((a, s) ∷ clients) = (lookup clients a ≡ none) × Distinct clients

-- An insertion may change the order in which the set is gone through.
abbrev pub Inserted : Clients → ℕ → Session → Clients → Type 0
Inserted clients a s result =
    (lookup clients a ≡ none)
    × Distinct result
    × ((b : ℕ) → lookup result b ≡ (if a == b then some s else lookup clients b))

module _ (env : Env) (crypto : Crypto) where
  open env use {Db}

  pub data Turn (w : Server Db) : Server Db → Type 0 where
    connects :
        (a seed : ℕ) (clients : Clients)
        → Inserted w.clients a (new_session seed) clients
        → Turn w (record w { clients = clients })
    receives :
        (a : ℕ) (s : Session) (bytes : List ℕ) (w' : Server Db)
        → lookup w.clients a ≡ some s
        → s.position ≡ reading
        → receive env crypto w a s bytes ≡ ok w'
        → Turn w w'
    loses :
        (a : ℕ) (s : Session)
        → lookup w.clients a ≡ some s
        → s.position ≡ reading
        → Turn w (connection_lost w a s)
    wakes_up :
        (a : ℕ) (s : Session) (w' : Server Db)
        → lookup w.clients a ≡ some s
        → s.position ≡ awaiting
        → s.reconnect_event ≡ true
        → wake_up w a s ≡ ok w'
        → Turn w w'
    gives_up :
        (a : ℕ) (s : Session) (w' : Server Db)
        → lookup w.clients a ≡ some s
        → s.position ≡ awaiting
        → give_up w a s ≡ ok w'
        → Turn w w'
    searches : Turn w (find_opponent w)
    -- The game of two clients ends, in its own thread: the setters for both of them.
    finishes :
        (a b : ℕ) (s : Session)
        → lookup w.clients a ≡ some s
        → s.client.in_game ≡ true
        → s.client.opponent ≡ some b
        → Turn w (record w { clients = modify (modify w.clients a left_game) b left_game })
    -- The rest of `client_to_server_cleanup`, after its wait.
    leaves :
        (a : ℕ) (s : Session)
        → lookup w.clients a ≡ some s
        → s.position ≡ closing
        → s.client.state ≢ in_game_state
        → Turn w (record w { clients = erase w.clients a })

  pub data Reach (w : Server Db) : Server Db → Type 0 where
    stay : Reach w w
    go : {u v : Server Db} → Reach w u → Turn u v → Reach w v

  -- The server before the first connection.
  abbrev pub started : Db → Server Db
  started db = record { db = db; clients = []; calls = []; next_game = 0 }
