-- ===== src/Session/Chat.antt =====
-- The chat of CardBluffServer/main.cpp: a text that is no command goes to the opponent.
use card_bluff.Prelude.{
  ℕ, ◌≡◌, sym, ap, ◌∙◌, inl, inr, List, [], ◌∷◌, ◌++◌, none, some, ok, codes, eq-cases,
}
use card_bluff.Client.{in_game_state, get_nickname_with_color, push_string}
use card_bluff.Env.{Env, Crypto}
use card_bluff.Session.{Session, Clients, tell_opponent}
use card_bluff.Session.Message.{behind}
use card_bluff.Session.Lobby.{chat, in_lobby}
use card_bluff.Session.Server.{Server, lookup, modify, receive, handle, deliver, told}
use card_bluff.Session.Kept.{changed, lookup-modify_same, lookup-modify_other}

-- Only the client at one address has changed: it has a text more to be sent.
abbrev pub IsTold : Clients → Clients → ℕ → Session → List ℕ → Type 0
IsTold clients clients' b t text =
    (lookup clients' b
      ≡ some
          (record t { client = record t.client { send_queue = t.client.send_queue ++ text ∷ [] } }))
    × ((c : ℕ) → ¬ (b ≡ c) → lookup clients' c ≡ lookup clients c)

unchanged :
    (clients : Clients) (a : ℕ) (s : Session)
    → lookup clients a ≡ some s
    → (c : ℕ) → lookup (modify clients a (λ _. s)) c ≡ lookup clients c
unchanged clients a s here c = elim (eq-cases a c) [
  | inr differs ↦ lookup-modify_other clients a c (λ _. s) differs
  | inl same ↦
      rw⁻¹ same (lookup-modify_same clients a (λ _. s) ∙ ap (changed (λ _. s)) here ∙ sym here)
]

module _ (env : Env) (crypto : Crypto) where
  open env use {Db}

  handle-chat :
      (clients : Clients) (db : Db) (s : Session) (text : List ℕ)
      → s.client.state ≡ in_game_state
      → behind (codes "/") text ≡ none
      → handle env crypto s.client.state clients db s text
        ≡ ok (
          db,
          s,
          tell_opponent (codes "USER " ++ get_nickname_with_color s.client ++ codes ": " ++ text),
        )
  unfolding handle in_lobby chat
  handle-chat clients db s text e plain =
      let start = ap (λ x. handle env crypto x clients db s text) e in
      let said : chat s text ≡ (
        s,
        tell_opponent (codes "USER " ++ get_nickname_with_color s.client ++ codes ": " ++ text),
      ) =
        simp (chat, e) in
      start ∙ simp (in_lobby, plain, said)

  -- When a client in the state IN_GAME, whose opponent is another client of the set, sends a text that
  -- does not begin with "/", receive returns, and the opponent has in its queue, after its other texts, one
  -- that begins with "USER ", the nickname of the sender as it is shown, and ": ", and ends with that text;
  -- nothing else changes, of no client, nor of the database and the games.
  pub receive-chat :
      (w : Server Db) (a b : ℕ) (s t : Session) (bytes text : List ℕ)
      → lookup w.clients a ≡ some s
      → lookup w.clients b ≡ some t
      → ¬ (a ≡ b)
      → s.client.state ≡ in_game_state
      → s.client.opponent ≡ some b
      → crypto.from_bytes bytes ≡ some text
      → behind (codes "/") text ≡ none
      → (clients' : Clients) × (receive env crypto w a s bytes
          ≡ ok (record w { clients = clients' }))
        × IsTold w.clients clients' b t
            (codes "USER " ++ get_nickname_with_color s.client ++ codes ": " ++ text)
  unfolding receive deliver push_string
  receive-chat w a b s t bytes text here there apart state opponent reads plain =
      let line = codes "USER " ++ get_nickname_with_color s.client ++ codes ": " ++ text in
      let value = handle-chat w.clients w.db s text state plain in
      (
        modify (modify w.clients a (λ _. s)) b (told line),
        simp (receive, reads, value, deliver, opponent),
        (
          lookup-modify_same (modify w.clients a (λ _. s)) b (told line)
              ∙ ap (changed (told line)) (lookup-modify_other w.clients a b (λ _. s) apart ∙ there),
          λ c far.
              lookup-modify_other (modify w.clients a (λ _. s)) b c (told line) far
              ∙ unchanged w.clients a s here c,
        ),
      )
