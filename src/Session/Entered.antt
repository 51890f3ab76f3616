-- ===== src/Session/Entered.antt =====
-- What an answer to a request for a password does to the flags of the client in
-- CardBluffServer/main.cpp.
use card_bluff.Prelude.{
  ℕ, refl, inl, inr, true, false, List, ◌++◌, Option, none, some, ◌==◌, After, Run-cases,
  Bool-cases, Option-cases, list_eq, codes,
}
use card_bluff.Prelude.Int.{ℤ}
use card_bluff.Client.{push_string, set_state, set_id, set_authorized}
use card_bluff.Env.{Env, Crypto}
use card_bluff.Session.{Session, Clients}
use card_bluff.Database.Clients.{db_get_id_by_nickname, db_get_password, db_add_client, Found}
use card_bluff.Session.Login.{
  on_second_password, on_password, answer_password, welcome, registered, last_salt,
  enter_registered, enter_known, refuse, hashed, find_nickname_waiting_reconnect,
}
use card_bluff.Session.Server.{closed}
use card_bluff.Session.Sound.{IsSound}
use card_bluff.Session.Handled.{Fine, IsOutside, outside-IsSound, closed-IsSound}

module _ (env : Env) (crypto : Crypto) where
  open env use {Db}

  -- An error after the welcome: the state is the one before it.
  abandoned-IsSound :
      (s : Session) (ending : List ℕ) (id : Option ℤ)
      → IsOutside s
      → IsSound (closed (record s { client = welcome env crypto s.client ending; id_buffer = id }))
  unfolding welcome push_string set_authorized
  abandoned-IsSound s ending id h =
      let same = outside-IsSound s h in ((λ e. refl), (λ e. inr refl), same.2, same.3)

  enter_known-Fine :
      (clients : Clients) (db : Db) (s : Session) (ending : List ℕ) (id : ℤ)
      → IsOutside s
      → After (Fine s) (
          enter_known env crypto clients db
            (record s { client = welcome env crypto s.client ending })
            id)
  unfolding enter_known welcome push_string set_authorized set_state set_id
  enter_known-Fine clients db s ending id h =
      elim (Option-cases (find_nickname_waiting_reconnect clients s.client.nickname)) [
        | inr (old, e) ↦ rw (enter_known, e) ((refl, refl, refl), h.2)
        | inl nobody ↦
            rw (enter_known, nobody) ((refl, refl, refl), ((λ e. refl), (λ e. inl refl), h.1, h.2))
      ]

  pub on_password-Fine :
      (clients : Clients) (db : Db) (s : Session) (text : List ℕ)
      → IsOutside s
      → After (Fine s) (on_password env crypto clients db s text)
  unfolding on_password answer_password refuse push_string
  on_password-Fine clients db s text h = elim (Option-cases s.id_buffer) [
    | inl missing ↦ rw (on_password, missing, answer_password) tt
    | inr (id, known) ↦ elim (Run-cases (db_get_password env crypto db id)) [
      | inl e ↦ rw (on_password, known, answer_password, e) tt
      | inr ((db₁, code, stored), e) ↦ elim (Bool-cases (code == 0)) [
        | inr bad ↦
            rw (on_password, known, answer_password, e, bad)
              ((refl, refl, refl), closed-IsSound env crypto s h)
        | inl fine ↦ elim (Run-cases (hashed env crypto (stored ++ last_salt env crypto s))) [
          | inl e₁ ↦ rw (on_password, known, answer_password, e, fine, e₁) tt
          | inr (pass, e₁) ↦ elim (Bool-cases (list_eq pass text)) [
            | inl same ↦
                rw (on_password, known, answer_password, e, fine, e₁, same)
                  (enter_known-Fine clients db₁ s (codes "!") id h)
            | inr different ↦
                rw (on_password, known, answer_password, e, fine, e₁, different)
                  ((refl, refl, refl), closed-IsSound env crypto (refuse env crypto s) h)
          ]
        ]
      ]
    ]
  ]

  found_id-Fine :
      (db : Db) (s : Session) (ending : List ℕ) (found : Found)
      → IsOutside s
      → After (Fine s) (
          registered env crypto db
            (record s { client = welcome env crypto s.client ending; id_buffer = found.1 })
            found)
  unfolding registered welcome push_string set_authorized set_state set_id
  found_id-Fine db s ending (false, id) h = ((refl, refl, refl), abandoned-IsSound s ending id h)
  found_id-Fine db s ending (true, none) h = tt
  found_id-Fine db s ending (true, some id) h =
      ((refl, refl, refl), ((λ e. refl), (λ e. inl refl), h.1, h.2))

  enter_registered-Fine :
      (db : Db) (s : Session) (ending : List ℕ)
      → IsOutside s
      → After (Fine s) (
          enter_registered env crypto db (record s { client = welcome env crypto s.client ending }))
  unfolding enter_registered welcome push_string set_authorized
  enter_registered-Fine db s ending h =
      elim (Run-cases (db_get_id_by_nickname env crypto db s.client.nickname s.id_buffer)) [
        | inl e ↦ rw (enter_registered, e) tt
        | inr ((db₁, code, found), e) ↦ elim (Bool-cases (code == 0)) [
          | inr bad ↦
              rw (enter_registered, e, bad)
                ((refl, refl, refl), abandoned-IsSound s ending found.1 h)
          | inl fine ↦ rw (enter_registered, e, fine) (found_id-Fine db₁ s ending found h)
        ]
      ]

  pub on_second_password-Fine :
      (clients : Clients) (db : Db) (s : Session) (text : List ℕ)
      → IsOutside s
      → After (Fine s) (on_second_password env crypto clients db s text)
  unfolding on_second_password refuse push_string
  on_second_password-Fine clients db s text h =
      elim (Run-cases (hashed env crypto (s.new_password ++ last_salt env crypto s))) [
        | inl e ↦ rw (on_second_password, e) tt
        | inr (pass, e) ↦ elim (Bool-cases (list_eq pass text)) [
          | inr different ↦
              rw (on_second_password, e, different)
                ((refl, refl, refl), closed-IsSound env crypto (refuse env crypto s) h)
          | inl same ↦
              elim (Run-cases (db_add_client env crypto db s.client.nickname s.new_password)) [
                | inl e₁ ↦ rw (on_second_password, e, same, e₁) tt
                | inr ((db₁, code), e₁) ↦ elim (Bool-cases (code == 0)) [
                  | inr bad ↦
                      rw (on_second_password, e, same, e₁, bad)
                        ((refl, refl, refl), closed-IsSound env crypto s h)
                  | inl fine ↦
                      rw (on_second_password, e, same, e₁, fine)
                        (enter_registered-Fine db₁ s (codes "! You are registered now.") h)
                ]
              ]
        ]
      ]
