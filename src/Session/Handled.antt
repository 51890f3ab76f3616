-- ===== src/Session/Handled.antt =====
-- What the handling of a message in CardBluffServer/main.cpp does to the flags of the client, and to
-- its game and opponent.
use card_bluff.Prelude.{
  ℕ, suc, ◌≡◌, refl, sym, ◌∙◌, inl, inr, true, false, List, ◌++◌, ◌==◌, if◌then◌else◌, ok, ◌>>=◌,
  After, Run-cases, After-ok, Bool-cases, Option-cases, codes, length, ltb,
}
use card_bluff.Client.{
  Client, ClientState, wait_nickname, wait_password_register_first, wait_password_register_second,
  wait_password, wait_enter_game, wait_opponent, in_game_state, get_nickname_with_color,
  push_string, push_string_format, set_state, set_nickname,
}
use card_bluff.Env.{Env, Crypto}
use card_bluff.Session.{
  salt_text, Session, Clients, reading, Next, go_on, clean_up, hand_over, tell_opponent,
  game_command,
}
use card_bluff.Database.Clients.{db_get_id_by_nickname, Found}
use card_bluff.Session.Login.{
  find_nickname_authorized, request_salted, ask_password, ask_new_password, on_nickname,
  on_first_password,
}
use card_bluff.Session.Server.{closed}
use card_bluff.Session.Sound.{IsSound, is_entered, is_seeking, is_playing}

abbrev pub SamePlace : Session → Session → Type 0
SamePlace s t =
    (t.client.in_game ≡ s.client.in_game)
    × (t.client.game ≡ s.client.game)
    × (t.client.opponent ≡ s.client.opponent)

abbrev pub Settled : Session → Next → Type 0
Settled t go_on = IsSound t
Settled t clean_up = IsSound (closed t)
Settled t (hand_over b) = t.client.in_game ≡ false
Settled t (tell_opponent text) = IsSound t × (t.client.in_game ≡ true)
Settled t (game_command text) = IsSound t × (t.client.in_game ≡ true)

-- Before the authorization.
abbrev pub IsOutside : Session → Type 0
IsOutside s =
    (s.client.authorized ≡ false)
    × (s.client.finding_duel ≡ false)
    × (s.client.in_game ≡ false)
    × (is_entered s.client.state ≡ false)

entered-outside :
    (x : ClientState) → is_entered x ≡ false → (is_seeking x ≡ false) × (is_playing x ≡ false)
entered-outside wait_enter_game h = cc
entered-outside wait_opponent h = cc
entered-outside in_game_state h = cc
entered-outside wait_nickname h = (refl, refl)
entered-outside wait_password h = (refl, refl)
entered-outside wait_password_register_first h = (refl, refl)
entered-outside wait_password_register_second h = (refl, refl)

pub IsSound-IsOutside :
    (s : Session)
    → IsSound s
    → s.position ≡ reading
    → is_entered s.client.state ≡ false
    → IsOutside s
IsSound-IsOutside s h r e =
    let flags = entered-outside s.client.state e in
    let nobody : s.client.authorized ≡ false = elim (Bool-cases s.client.authorized) [
      | inr outside ↦ outside
      | inl admitted ↦ elim (h.1 admitted) [ inl entered ↦ cc | inr there ↦ cc ]
    ] in
    (nobody, h.2 ∙ flags.0, h.3 ∙ flags.1, e)

pub outside-IsSound : (s : Session) → IsOutside s → IsSound s
outside-IsSound s h =
    let flags = entered-outside s.client.state h.3 in
    ((λ e. cc), (λ e. cc), h.1 ∙ sym flags.0, h.2 ∙ sym flags.1)

-- What a request for a password leaves: a client that is not authorized.
abbrev Asked : Session → Session → Type 0
Asked s t = SamePlace s t × IsOutside t

abbrev pub Fine {ℓ} : {Db : Type ℓ} → Session → Db × Session × Next → Type 0
Fine s (db, t, next) = SamePlace s t × Settled t next

-- The handling of a message that asks for another one.
abbrev pub Stays {ℓ} : {Db : Type ℓ} → Session → Db × Session × Next → Type 0
Stays s (db, t, next) = SamePlace s t × Settled t next × IsOutside t

pub pushed_format :
    (c d : Client) (text : List ℕ) → push_string_format c text ≡ ok d → d ≡ push_string c text
unfolding push_string_format push_string
pushed_format c d text e = elim (Bool-cases (ltb (length text) 1024)) [
  | inl short ↦ cc
  | inr long ↦ cc
]

module _ (env : Env) (crypto : Crypto) where
  open env use {Db}

  request_salted-Asked :
      (s : Session) (request : List ℕ)
      → IsOutside s
      → After (Asked s) (request_salted env crypto s request)
  unfolding request_salted push_string
  request_salted-Asked s request h =
      let text = request ++ salt_text (crypto.rand64 s.seed (suc s.drawn)) in
      elim (Run-cases (push_string_format s.client text)) [
        | inl e ↦ rw e tt
        | inr (c, e) ↦
            let pushed = pushed_format s.client c text e in rw (e, pushed) ((refl, refl, refl), h)
      ]

  ask_password-Asked : (s : Session) → IsOutside s → After (Asked s) (ask_password env crypto s)
  unfolding ask_password push_string set_state
  ask_password-Asked s h =
      let asked = record s {
        client = push_string s.client (codes "SERVER: Please enter password.");
      } in
      let after = request_salted-Asked asked (codes "password?") h in
      elim (Run-cases (request_salted env crypto asked (codes "password?"))) [
        | inl e ↦ rw e tt
        | inr (t, e) ↦
            let same = After-ok (Asked asked) _ t e after in
            rw e (same.0, (same.1.0, same.1.1, same.1.2, refl))
      ]

  ask_new_password-Asked :
      (s : Session) → IsOutside s → After (Asked s) (ask_new_password env crypto s)
  unfolding ask_new_password push_string set_state get_nickname_with_color
  ask_new_password-Asked s h =
      let text =
        codes "SERVER: You are a new user, "
        ++ get_nickname_with_color s.client
        ++ codes ". Please enter your password to register." in
      elim (Run-cases (push_string_format s.client text)) [
        | inl e ↦ rw e tt
        | inr (c, e) ↦
            let pushed = pushed_format s.client c text e in
            rw (e, pushed) ((refl, refl, refl), (h.0, h.1, h.2, refl))
      ]

  Asked-Settled : (s t : Session) → Asked s t → SamePlace s t × Settled t go_on × IsOutside t
  Asked-Settled s t h = (h.0, outside-IsSound t h.1, h.1)

  pub closed-IsSound : (s : Session) → IsOutside s → IsSound (closed s)
  closed-IsSound s h = let same = outside-IsSound s h in (same.0, (λ e. inr refl), same.2, same.3)

  nickname_answered :
      (db : Db) (s : Session) (nick : List ℕ) (found : Found)
      → IsOutside s
      → After (Stays s) (
          (if found.0
            then ask_password env crypto
                (record s { client = set_nickname s.client nick; id_buffer = found.1 })
            else ask_new_password env crypto
                (record s { client = set_nickname s.client nick; id_buffer = found.1 }))
          >>= λ t. ok (db, t, go_on))
  unfolding set_nickname
  nickname_answered db s nick (true, id) h =
      let known = record s { client = set_nickname s.client nick; id_buffer = id } in
      let after = ask_password-Asked known h in
      elim (Run-cases (ask_password env crypto known)) [
        | inl e ↦ rw e tt
        | inr (t, e) ↦ rw e (Asked-Settled known t (After-ok (Asked known) _ t e after))
      ]
  nickname_answered db s nick (false, id) h =
      let known = record s { client = set_nickname s.client nick; id_buffer = id } in
      let after = ask_new_password-Asked known h in
      elim (Run-cases (ask_new_password env crypto known)) [
        | inl e ↦ rw e tt
        | inr (t, e) ↦ rw e (Asked-Settled known t (After-ok (Asked known) _ t e after))
      ]

  pub on_nickname-Stays :
      (clients : Clients) (db : Db) (s : Session) (nick : List ℕ)
      → IsOutside s
      → After (Stays s) (on_nickname env crypto clients db s nick)
  unfolding on_nickname set_nickname
  on_nickname-Stays clients db s nick h =
      elim (Option-cases (find_nickname_authorized clients nick)) [
        | inr (a, e) ↦ rw (on_nickname, e) ((refl, refl, refl), closed-IsSound s h, h)
        | inl nobody ↦ elim (Run-cases (db_get_id_by_nickname env crypto db nick s.id_buffer)) [
          | inl e ↦ rw (on_nickname, nobody, e) tt
          | inr ((db₁, code, found), e) ↦ elim (Bool-cases (code == 0)) [
            | inr bad ↦
                let known = record s { client = set_nickname s.client nick; id_buffer = found.1 } in
                rw (on_nickname, nobody, e, bad) ((refl, refl, refl), closed-IsSound known h, h)
            | inl fine ↦ rw (on_nickname, nobody, e, fine) (nickname_answered db₁ s nick found h)
          ]
        ]
      ]

  pub on_first_password-Stays :
      (clients : Clients) (db : Db) (s : Session) (text : List ℕ)
      → IsOutside s
      → After (Stays s) (on_first_password env crypto clients db s text)
  unfolding push_string set_state on_first_password
  on_first_password-Stays clients db s text h =
      let asked = record s {
        client = push_string s.client (codes "SERVER: Please re-enter your password.");
        new_password = text;
      } in
      let after = request_salted-Asked asked (codes "password_second?") h in
      elim (Run-cases (request_salted env crypto asked (codes "password_second?"))) [
        | inl e ↦ rw (on_first_password, e) tt
        | inr (t, e) ↦
            let same = After-ok (Asked asked) _ t e after in
            let open_session = record t {
              client = set_state t.client wait_password_register_second;
            } in
            rw (on_first_password, e)
              (Asked-Settled s open_session (same.0, (same.1.0, same.1.1, same.1.2, refl)))
      ]
