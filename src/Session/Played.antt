-- ===== src/Session/Played.antt =====
-- What a message of an authorized client in CardBluffServer/main.cpp does to its flags, and the whole
-- `switch` over the state.
use card_bluff.Prelude.{
  ℕ, ◌≡◌, refl, ap, ◌∙◌, ◌⊎◌, inl, inr, true, List, [], ◌∷◌, ◌++◌, ◌==◌, ◌||◌, After, After-weaken,
  After-ok, Run-cases, Bool-cases, Option-cases, list_eq, codes,
}
use card_bluff.Client.{
  Client, ClientState, wait_nickname, wait_password_register_first, wait_password_register_second,
  wait_password, wait_enter_game, wait_opponent, in_game_state, push_string, push_strings,
  set_state, set_finding_duel,
}
use card_bluff.Env.{Env, Crypto}
use card_bluff.Database.Clients.{db_get_top}
use card_bluff.Session.{Session, Clients, reading, Next, go_on}
use card_bluff.Session.Message.{behind, lines_for}
use card_bluff.Session.Login.{on_nickname, on_first_password, on_second_password, on_password}
use card_bluff.Session.Lobby.{
  chat, find_duel, cancel, other_command, plain_command, show_top, on_top, on_command, in_lobby,
  top_lines,
}
use card_bluff.Session.Server.{Handler, handle, expect}
use card_bluff.Session.Sound.{IsSound, is_entered, is_playing}
use card_bluff.Session.Entered.{on_password-Fine, on_second_password-Fine}
use card_bluff.Session.Handled.{
  IsOutside, SamePlace, Settled, Fine, Stays, IsSound-IsOutside, closed-IsSound, on_nickname-Stays,
  on_first_password-Stays,
}

entered-cases :
    (x : ClientState)
    → is_entered x ≡ true
    → (x ≡ wait_enter_game) ⊎ ((x ≡ wait_opponent) ⊎ (x ≡ in_game_state))
entered-cases wait_enter_game h = inl refl
entered-cases wait_opponent h = inr (inl refl)
entered-cases in_game_state h = inr (inr refl)
entered-cases wait_nickname h = cc
entered-cases wait_password h = cc
entered-cases wait_password_register_first h = cc
entered-cases wait_password_register_second h = cc

abbrev Inside : Session → Session × Next → Type 0
Inside s (t, next) = SamePlace s t × Settled t next

abbrev IsInside : Session → Type 0
IsInside s = IsSound s × (is_entered s.client.state ≡ true)

module _ (s : Session) (h : IsInside s) where
  chat-Inside : (text : List ℕ) → Inside s (chat s text)
  unfolding chat push_string
  chat-Inside text = elim (entered-cases s.client.state h.1) [
    | inl e ↦ rw (chat, e) ((refl, refl, refl), h.0)
    | inr (inl e) ↦ rw (chat, e) ((refl, refl, refl), h.0)
    | inr (inr e) ↦ rw (chat, e) ((refl, refl, refl), (h.0, h.0.3 ∙ ap is_playing e))
  ]

  other_command-Inside : (text : List ℕ) → Inside s (other_command s text)
  unfolding other_command push_string
  other_command-Inside text = elim (entered-cases s.client.state h.1) [
    | inl e ↦ rw (other_command, e) ((refl, refl, refl), h.0)
    | inr (inl e) ↦ rw (other_command, e) ((refl, refl, refl), h.0)
    | inr (inr e) ↦ rw (other_command, e) ((refl, refl, refl), (h.0, h.0.3 ∙ ap is_playing e))
  ]

  plain_command-Inside : (text : List ℕ) → Inside s (plain_command s text)
  unfolding plain_command push_string
  plain_command-Inside text = elim (Bool-cases (list_eq text (codes "/help"))) [
    | inl e ↦ rw (plain_command, e) ((refl, refl, refl), h.0)
    | inr e ↦ rw (plain_command, e) (other_command-Inside text)
  ]

  find_duel-Inside : Inside s (find_duel s, go_on)
  unfolding find_duel push_string set_state set_finding_duel
  find_duel-Inside = elim (entered-cases s.client.state h.1) [
    | inl e ↦
        rw (find_duel, e)
          ((refl, refl, refl), ((λ _. h.0.0 h.1), (λ _. inl refl), refl, h.0.3 ∙ ap is_playing e))
    | inr (inl e) ↦ rw (find_duel, e) ((refl, refl, refl), h.0)
    | inr (inr e) ↦ rw (find_duel, e) ((refl, refl, refl), h.0)
  ]

  cancel-Inside : Inside s (cancel s, go_on)
  unfolding cancel push_string set_state set_finding_duel
  cancel-Inside = elim (entered-cases s.client.state h.1) [
    | inl e ↦ rw (cancel, e) ((refl, refl, refl), h.0)
    | inr (inl e) ↦
        rw (cancel, e)
          ((refl, refl, refl), ((λ _. h.0.0 h.1), (λ _. inl refl), refl, h.0.3 ∙ ap is_playing e))
    | inr (inr e) ↦ rw (cancel, e) ((refl, refl, refl), h.0)
  ]

-- More texts in the queue change nothing else.
push_strings-queue :
    (texts : List (List ℕ)) (c : Client)
    → push_strings c texts ≡ record c { send_queue = (push_strings c texts).send_queue }
unfolding push_strings
push_strings-queue [] c = refl
push_strings-queue (text ∷ texts) c =
    push_strings-queue texts (record c { send_queue = c.send_queue ++ text ∷ [] })

module _ (env : Env) (crypto : Crypto) where
  open env use {Db}

  show_top-Inside :
      (db : Db) (s : Session) (rest : List ℕ)
      → IsInside s
      → After (λ r. Inside s (r.1, go_on)) (show_top env crypto db s rest)
  unfolding show_top push_string
  show_top-Inside db s rest h = elim (Run-cases (lines_for rest)) [
    | inl e ↦ rw (show_top, e) tt
    | inr (n, e) ↦ elim (Run-cases (db_get_top env crypto db n)) [
      | inl e₁ ↦ rw (show_top, e, e₁) tt
      | inr ((db₁, code, top), e₁) ↦ elim (Bool-cases (code == 0)) [
        | inl fine ↦
            rw (show_top, e, e₁, fine, push_strings-queue (top_lines 0 top) s.client)
              ((refl, refl, refl), h.0)
        | inr bad ↦ rw (show_top, e, e₁, bad) ((refl, refl, refl), h.0)
      ]
    ]
  ]

  on_top-Fine :
      (db : Db) (s : Session) (text : List ℕ)
      → IsInside s
      → After (Fine s) (on_top env crypto db s text)
  unfolding on_top
  on_top-Fine db s text h = elim (Option-cases (behind (codes "/top") text)) [
    | inl e ↦ rw (on_top, e) (plain_command-Inside s h text)
    | inr (rest, e) ↦ elim (Run-cases (show_top env crypto db s rest)) [
      | inl e₁ ↦ rw (on_top, e, e₁) tt
      | inr (r, e₁) ↦
          rw (on_top, e, e₁)
            (After-ok (λ r. Inside s (r.1, go_on)) _ r e₁ (show_top-Inside db s rest h))
    ]
  ]

  on_command-Fine :
      (db : Db) (s : Session) (text : List ℕ)
      → IsInside s
      → After (Fine s) (on_command env crypto db s text)
  unfolding on_command
  on_command-Fine db s text h =
      elim (Bool-cases (list_eq text (codes "/findduel") || list_eq text (codes "/fd"))) [
        | inl e ↦ rw (on_command, e) (find_duel-Inside s h)
        | inr e ↦ elim (Bool-cases (list_eq text (codes "/cancel"))) [
          | inl e₁ ↦ rw (on_command, e, e₁) (cancel-Inside s h)
          | inr e₁ ↦ rw (on_command, e, e₁) (on_top-Fine db s text h)
        ]
      ]

  in_lobby-Fine :
      (db : Db) (s : Session) (text : List ℕ)
      → IsInside s
      → After (Fine s) (in_lobby env crypto db s text)
  unfolding in_lobby
  in_lobby-Fine db s text h = elim (Option-cases (behind (codes "/") text)) [
    | inl e ↦ rw (in_lobby, e) (chat-Inside s h text)
    | inr (rest, e) ↦ rw (in_lobby, e) (on_command-Fine db s text h)
  ]

  expect-Fine :
      (prefix : List ℕ) (handler : Handler env crypto) (clients : Clients) (db : Db) (s : Session)
      (text : List ℕ)
      → IsOutside s
      → ((rest : List ℕ) → After (Fine s) (handler clients db s rest))
      → After (Fine s) (expect env crypto prefix handler clients db s text)
  unfolding expect
  expect-Fine prefix handler clients db s text h fine = elim (Option-cases (behind prefix text)) [
    | inl e ↦ rw (expect, e) ((refl, refl, refl), closed-IsSound env crypto s h)
    | inr (rest, e) ↦ rw (expect, e) (fine rest)
  ]

  -- The handling keeps a session sound, whatever the message is, and does not touch its game.
  pub handle-Fine :
      (x : ClientState) (clients : Clients) (db : Db) (s : Session) (text : List ℕ)
      → IsSound s
      → s.position ≡ reading
      → s.client.state ≡ x
      → After (Fine s) (handle env crypto x clients db s text)
  unfolding handle
  handle-Fine wait_nickname clients db s text h r e =
      let out = IsSound-IsOutside s h r (ap is_entered e) in
      expect-Fine (codes "nickname:") (on_nickname env crypto) clients db s text out (λ rest.
        After-weaken (Stays s) (Fine s) _ (λ r k. (k.0, k.1))
          (on_nickname-Stays env crypto clients db s rest out))
  handle-Fine wait_password_register_first clients db s text h r e =
      let out = IsSound-IsOutside s h r (ap is_entered e) in
      expect-Fine (codes "password_first:") (on_first_password env crypto) clients db s text out
        (λ rest.
          After-weaken (Stays s) (Fine s) _ (λ r k. (k.0, k.1))
            (on_first_password-Stays env crypto clients db s rest out))
  handle-Fine wait_password_register_second clients db s text h r e =
      let out = IsSound-IsOutside s h r (ap is_entered e) in
      expect-Fine (codes "password_second:") (on_second_password env crypto) clients db s text out
        (λ rest. on_second_password-Fine env crypto clients db s rest out)
  handle-Fine wait_password clients db s text h r e =
      let out = IsSound-IsOutside s h r (ap is_entered e) in
      expect-Fine (codes "password:") (on_password env crypto) clients db s text out
        (λ rest. on_password-Fine env crypto clients db s rest out)
  handle-Fine wait_enter_game clients db s text h r e = in_lobby-Fine db s text (h, ap is_entered e)
  handle-Fine wait_opponent clients db s text h r e = in_lobby-Fine db s text (h, ap is_entered e)
  handle-Fine in_game_state clients db s text h r e = in_lobby-Fine db s text (h, ap is_entered e)
