-- ===== src/Session/Named.antt =====
-- What a client of CardBluffServer/main.cpp is asked for after its nickname.
use card_bluff.Prelude.{
  ℕ, suc, ◌≡◌, refl, subst, inl, inr, Bool, true, false, List, ◌++◌, ◌==◌, ok, After, After-ok,
  Run-cases, Bool-cases, Option-cases, codes, ==→eq, if◌then◌else◌, ◌>>=◌,
}
use card_bluff.Client.{
  ClientState, wait_nickname, wait_password, wait_password_register_first, push_string, set_state,
  set_nickname, push_string_format, get_nickname_with_color,
}
use card_bluff.Env.{Env, Crypto}
use card_bluff.Database.Clients.{db_get_id_by_nickname, Found}
use card_bluff.Session.{Session, Clients, Next, go_on, salt_text}
use card_bluff.Session.Message.{behind}
use card_bluff.Session.Login.{
  on_nickname, ask_password, ask_new_password, request_salted, find_nickname_authorized,
}
use card_bluff.Session.Server.{handle, expect}
use card_bluff.Session.Handled.{pushed_format}

-- The name and the id of a session, and what it is waiting for.
abbrev Asks : ClientState → Session → Session → Type 0
Asks x s t =
    (t.client.nickname ≡ s.client.nickname) × (t.id_buffer ≡ s.id_buffer) × (t.client.state ≡ x)

module _ (env : Env) (crypto : Crypto) where
  open env use {Db}

  ask_password-Asks : (s : Session) → After (Asks wait_password s) (ask_password env crypto s)
  unfolding ask_password request_salted push_string set_state
  ask_password-Asks s =
      let asked = push_string s.client (codes "SERVER: Please enter password.") in
      let text = codes "password?" ++ salt_text (crypto.rand64 s.seed (suc s.drawn)) in
      elim (Run-cases (push_string_format asked text)) [
        | inl e ↦ rw e tt
        | inr (c, e) ↦
            let pushed = pushed_format asked c text e in rw (e, pushed) (refl, refl, refl)
      ]

  ask_new_password-Asks :
      (s : Session) → After (Asks wait_password_register_first s) (ask_new_password env crypto s)
  unfolding ask_new_password push_string set_state
  ask_new_password-Asks s =
      let text =
        codes "SERVER: You are a new user, "
        ++ get_nickname_with_color s.client
        ++ codes ". Please enter your password to register." in
      elim (Run-cases (push_string_format s.client text)) [
        | inl e ↦ rw e tt
        | inr (c, e) ↦
            let pushed = pushed_format s.client c text e in rw (e, pushed) (refl, refl, refl)
      ]

  -- The session has the nickname, and the id that the database gives for it; a client that the database
  -- knows is asked for its password, another one for a new password.
  abbrev pub IsNamed : Session → Db → List ℕ → Db → Session → Type 0
  IsNamed s db nick db' t =
      (known : Bool) × (db_get_id_by_nickname env crypto db nick s.id_buffer
        ≡ ok (db', 0, (known, t.id_buffer)))
      × (t.client.nickname ≡ nick)
      × (t.client.state ≡ (if known then wait_password else wait_password_register_first))

  abbrev Names : Session → Db → List ℕ → Db × Session × Next → Type 0
  Names s db nick (db', t, next) = next ≡ go_on → IsNamed s db nick db' t

  named_answer :
      (s : Session) (db db₁ : Db) (nick : List ℕ) (found : Found)
      → db_get_id_by_nickname env crypto db nick s.id_buffer ≡ ok (db₁, 0, found)
      → After (Names s db nick) (
          (if found.0
            then ask_password env crypto
                (record s { client = set_nickname s.client nick; id_buffer = found.1 })
            else ask_new_password env crypto
                (record s { client = set_nickname s.client nick; id_buffer = found.1 }))
          >>= λ t. ok (db₁, t, go_on))
  unfolding set_nickname
  named_answer s db db₁ nick (true, id) answer =
      let known = record s { client = set_nickname s.client nick; id_buffer = id } in
      elim (Run-cases (ask_password env crypto known)) [
        | inl e ↦ rw e tt
        | inr (t, e) ↦
            let asks = After-ok (Asks wait_password known) _ t e (ask_password-Asks known) in
            rw e (λ _. (true, rw (asks.1) answer, asks.0, asks.2))
      ]
  named_answer s db db₁ nick (false, id) answer =
      let known = record s { client = set_nickname s.client nick; id_buffer = id } in
      elim (Run-cases (ask_new_password env crypto known)) [
        | inl e ↦ rw e tt
        | inr (t, e) ↦
            let asks =
              After-ok (Asks wait_password_register_first known) _ t e
                (ask_new_password-Asks known) in
            rw e (λ _. (false, rw (asks.1) answer, asks.0, asks.2))
      ]

  on_nickname-Names :
      (clients : Clients) (db : Db) (s : Session) (nick : List ℕ)
      → After (Names s db nick) (on_nickname env crypto clients db s nick)
  unfolding on_nickname
  on_nickname-Names clients db s nick =
      elim (Option-cases (find_nickname_authorized clients nick)) [
        | inr (a, e) ↦ rw (on_nickname, e) (λ x. absurd (cc))
        | inl nobody ↦ elim (Run-cases (db_get_id_by_nickname env crypto db nick s.id_buffer)) [
          | inl e ↦ rw (on_nickname, nobody, e) tt
          | inr ((db₁, code, found), e) ↦ elim (Bool-cases (code == 0)) [
            | inr bad ↦ rw (on_nickname, nobody, e, bad) (λ x. absurd (cc))
            | inl fine ↦
                rw (on_nickname, nobody, e, fine)
                  (named_answer s db db₁ nick found (
                    subst
                      (λ n.
                        db_get_id_by_nickname env crypto db nick s.id_buffer ≡ ok (db₁, n, found))
                      (==→eq code 0 fine) e))
          ]
        ]
      ]

  -- When the message "nickname:" and a nickname does not end the session, the session has that nickname
  -- afterwards, and the id that the query for that nickname has left; it waits for the password where the
  -- query has found one, and else for a new password.
  pub handle-IsNamed :
      (clients : Clients) (db db' : Db) (s t : Session) (nick : List ℕ)
      → handle env crypto wait_nickname clients db s (codes "nickname:" ++ nick)
        ≡ ok (db', t, go_on)
      → IsNamed s db nick db' t
  unfolding handle expect behind
  handle-IsNamed clients db db' s t nick e =
      After-ok (Names s db nick) _ (db', t, go_on) e (on_nickname-Names clients db s nick) refl
