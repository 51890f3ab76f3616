-- ===== src/Session/Reached.antt =====
-- What holds of the server of CardBluffServer/main.cpp in every state that it reaches.
use card_bluff.Prelude.{
  ℕ, ◌≡◌, refl, sym, ◌∙◌, subst, inl, inr, Bool, true, false, List, some, ok, After, After-ok,
  Run-cases, Bool-cases, Option-cases,
}
use card_bluff.Client.{set_waiting_reconnect}
use card_bluff.Env.{Env, Crypto}
use card_bluff.Session.{Session, reading, awaiting, clean_up}
use card_bluff.Session.Server.{
  Server, lookup, modify, new_session, closed, connection_lost, lost, wake_up, give_up, call_game,
  receive, handle, push_call, reconnected, disconnected, GameCall,
}
use card_bluff.Session.Steps.{
  Turn, connects, receives, loses, wakes_up, gives_up, searches, finishes, leaves, Reach, stay, go,
  started,
}
use card_bluff.Session.Sound.{IsSound, is_entered}
use card_bluff.Session.Handled.{SamePlace, Fine}
use card_bluff.Session.Played.{handle-Fine}
use card_bluff.Session.Duels.{insert-IsSettled, finish-IsSettled, search-IsSettled, playing-state}
use card_bluff.Session.Settling.{
  IsSettled, put-IsSettled, erase-IsSettled, closed-IsSound, deliver-IsSettled,
}

-- An authorized client that is not on its way out.
inside :
    (s : Session)
    → s.client.authorized ≡ true
    → s.position ≡ reading
    → IsSound s
    → is_entered s.client.state ≡ true
inside s admitted reads h = elim (h.1 admitted) [ inl entered ↦ entered | inr closes ↦ absurd (cc) ]

module _ (env : Env) (crypto : Crypto) where
  open env use {Db}

  receive-IsSettled :
      (w : Server Db) (a : ℕ) (s : Session) (bytes : List ℕ)
      → IsSettled w.clients
      → lookup w.clients a ≡ some s
      → s.position ≡ reading
      → After (λ w'. IsSettled w'.clients) (receive env crypto w a s bytes)
  unfolding receive
  receive-IsSettled w a s bytes h here reads =
      let sound = h.0 a s here in
      elim (Option-cases (crypto.from_bytes bytes)) [
        | inl wrong ↦
            rw (receive, wrong)
              (deliver-IsSettled w a s s clean_up h here (refl, refl, refl)
                (closed-IsSound s sound))
        | inr (text, e) ↦
            elim (Run-cases (handle env crypto s.client.state w.clients w.db s text)) [
              | inl e₁ ↦ rw (receive, e, e₁) tt
              | inr ((db, t, next), e₁) ↦
                  let fine =
                    After-ok (Fine s) _ (db, t, next) e₁
                      (handle-Fine env crypto s.client.state w.clients w.db s text sound reads
                        refl) in
                  rw (receive, e, e₁)
                    (deliver-IsSettled (record w { db = db }) a s t next h here fine.0 fine.1)
            ]
      ]

  call_game-clients :
      (w : Server Db) (a : ℕ) (s : Session) (call : ℕ → ℕ → GameCall)
      → After (λ w'. w'.clients ≡ w.clients) (call_game w a s call)
  unfolding call_game push_call
  call_game-clients w a s call = elim (Bool-cases s.client.in_game) [
    | inr idle ↦ rw (call_game, idle) refl
    | inl busy ↦ elim (Option-cases s.client.game) [
      | inl nothing ↦ rw (call_game, busy, nothing) tt
      | inr (g, e) ↦ rw (call_game, busy, e) refl
    ]
  ]

  -- What a step of a client's own thread makes of the set.
  called-IsSettled :
      (w w' : Server Db) (a : ℕ) (s t : Session) (call : ℕ → ℕ → GameCall)
      → lookup w.clients a ≡ some s
      → SamePlace s t
      → IsSound t
      → IsSettled w.clients
      → call_game (record w { clients = modify w.clients a (λ _. t) }) a s call ≡ ok w'
      → IsSettled w'.clients
  called-IsSettled w w' a s t call here same sound h e =
      let v : Server Db = record w { clients = modify w.clients a (λ _. t) } in
      let clients =
        After-ok (λ u. u.clients ≡ v.clients) (call_game v a s call) w' e
          (call_game-clients v a s call) in
      subst IsSettled (sym clients) (put-IsSettled w.clients a s t here same sound h)

  lost-IsSound :
      (b : Bool) (s : Session)
      → s.client.authorized ≡ b
      → s.position ≡ reading
      → IsSound s
      → SamePlace s (lost b s) × IsSound (lost b s)
  unfolding lost set_waiting_reconnect
  lost-IsSound false s e reads h = ((refl, refl, refl), closed-IsSound s h)
  lost-IsSound true s e reads h =
      ((refl, refl, refl), (h.0, (λ _. inl (inside s e reads h)), h.2, h.3))

  lost-IsSettled :
      (w : Server Db) (a : ℕ) (s : Session)
      → lookup w.clients a ≡ some s
      → s.position ≡ reading
      → IsSettled w.clients
      → IsSettled (connection_lost w a s).clients
  unfolding connection_lost
  lost-IsSettled w a s here reads h =
      let after = lost-IsSound s.client.authorized s refl reads (h.0 a s here) in
      put-IsSettled w.clients a s (lost s.client.authorized s) here after.0 after.1 h

  awake-IsSound :
      (s : Session) → s.position ≡ awaiting → IsSound s → IsSound (record s { position = reading })
  awake-IsSound s waits h = (
    h.0,
    (λ admitted. elim (h.1 admitted) [ inl entered ↦ inl entered | inr closes ↦ absurd (cc) ]),
    h.2,
    h.3,
  )

  Turn-IsSettled :
      {w w' : Server Db} → Turn env crypto w w' → IsSettled w.clients → IsSettled w'.clients
  unfolding new_session wake_up give_up
  Turn-IsSettled {w = w} (connects a seed clients inserted) h =
      insert-IsSettled w.clients clients a (new_session seed) inserted
        ((λ e. cc), (λ e. cc), refl, refl) refl h
  Turn-IsSettled {w = w} (receives a s bytes u here reads e) h =
      After-ok (λ u. IsSettled u.clients) _ u e (receive-IsSettled w a s bytes h here reads)
  Turn-IsSettled {w = w} (loses a s here reads) h = lost-IsSettled w a s here reads h
  Turn-IsSettled {w = w} (wakes_up a s u here waits woken e) h =
      called-IsSettled w u a s (record s { position = reading }) reconnected here (refl, refl, refl)
        (awake-IsSound s waits (h.0 a s here)) h e
  Turn-IsSettled {w = w} (gives_up a s u here waits e) h =
      called-IsSettled w u a s (closed s) disconnected here (refl, refl, refl)
        (closed-IsSound s (h.0 a s here)) h e
  Turn-IsSettled {w = w} searches h = search-IsSettled w h
  Turn-IsSettled {w = w} (finishes a b s here playing opponent) h =
      finish-IsSettled w.clients a b s here playing opponent h
  Turn-IsSettled {w = w} (leaves a s here closes elsewhere) h =
      let idle : s.client.in_game ≡ false = elim (Bool-cases s.client.in_game) [
        | inr no_game ↦ no_game
        | inl busy ↦ absurd (elsewhere (playing-state s.client.state (sym (h.0 a s here).3 ∙ busy)))
      ] in
      erase-IsSettled w.clients a s here idle h

  Reach-IsSettled :
      {w w' : Server Db} → Reach env crypto w w' → IsSettled w.clients → IsSettled w'.clients
  Reach-IsSettled stay h = h
  Reach-IsSettled (go path step) h = Turn-IsSettled step (Reach-IsSettled path h)

  -- In every state that the server reaches from its start when its threads take turns, so that no thread
  -- is interrupted in the handling of a message, a search or the end of a game: the addresses of the clients differ; each
  -- client that may look for a game or play is authorized, an authorized client may do so unless it is
  -- on its way out, the flag finding_duel is set just in the state WAIT_OPPONENT and in_game just in
  -- IN_GAME; and each client in a game has another client of the set as its opponent, in the same game,
  -- which has it as its opponent.
  pub reached-IsSettled :
      (db : Db) {w : Server Db} → Reach env crypto (started env crypto db) w → IsSettled w.clients
  unfolding lookup
  reached-IsSettled db path = Reach-IsSettled path ((λ a s e. cc), tt, (λ a s e. cc))
