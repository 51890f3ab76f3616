-- ===== src/Session/Judged.antt =====
-- The answers of CardBluffServer/main.cpp to a password, to a nickname that does not fit, and to the
-- number after "/top".
use card_bluff.Prelude.{
  ℕ, ◌≤◌, ◌≡◌, refl, sym, ap, ◌∙◌, ◌⊎◌, inl, inr, Bool, true, false, ◌&&◌, List, [], ◌∷◌, ◌++◌,
  none, some, ◌==◌, ok, fault, Bool-cases, Option-cases, list_eq, list_eq→eq, list_eq_refl, codes,
  length, length-append, ltb, arith, le→ltb, if◌then◌else◌,
}
use card_bluff.Prelude.Int.{ℤ}
use card_bluff.Client.{
  wait_enter_game, push_string, set_state, set_id, set_authorized, get_nickname_with_color,
}
use card_bluff.Env.{Env, Crypto}
use card_bluff.Database.{sprintf_cmd}
use card_bluff.Database.Clients.{db_get_password, db_get_id_by_nickname}
use card_bluff.Session.{Session, Clients, Next, go_on, clean_up, hand_over}
use card_bluff.Session.Message.{lines_for, scan_u, Scanned, number, no_match, end_of_text}
use card_bluff.Session.Login.{
  on_password, answer_password, hashed, last_salt, refuse, welcome, enter_known, find_client,
  find_nickname_waiting_reconnect, find_nickname_authorized, on_nickname,
}

-- Where `lines_for` returns, the number of lines that "/top" asks the database for is from 1 to 100.
pub lines_for-bounds : (text : List ℕ) (n : ℕ) → lines_for text ≡ ok n → (1 ≤ n) × (n ≤ 100)
unfolding lines_for
lines_for-bounds text n e = go (scan_u text) e
  where
    go :
        (r : Scanned)
        → (elim r [
          | number m ↦ ok (if m == 0 then 1 else if ltb 100 m then 100 else m)
          | no_match ↦ ok 10
          | end_of_text ↦ fault
        ])
          ≡ ok n
        → (1 ≤ n) × (n ≤ 100)
    go (number m) h = ground arith
    go no_match h = ground arith
    go end_of_text h = cc

-- A client of the set with that nickname waits for a reconnection, or none does.
abbrev pub Awaits : Clients → ℕ → List ℕ → Type 0
Awaits clients old nick =
    (before : Clients) × (u : Session) × (after : Clients) × (clients ≡ before ++ (old, u) ∷ after)
    × (u.client.nickname ≡ nick)
    × (u.client.waiting_reconnect ≡ true)

abbrev pub Unawaited : Clients → List ℕ → Type 0
Unawaited [] nick = Unit
Unawaited ((a, u) ∷ clients) nick =
    ¬ ((u.client.nickname ≡ nick) × (u.client.waiting_reconnect ≡ true)) × Unawaited clients nick

waits-parts : (u nick : List ℕ) (b : Bool) → (list_eq u nick && b) ≡ true → (u ≡ nick) × (b ≡ true)
waits-parts u nick b h = elim (Bool-cases (list_eq u nick)) [
  | inl same ↦ (list_eq→eq u nick same, rw same at h)
  | inr differ ↦ let x : false ≡ true = rw differ at h in absurd (cc)
]

find_nickname-Awaits :
    (clients : Clients) (nick : List ℕ) (old : ℕ)
    → find_nickname_waiting_reconnect clients nick ≡ some old
    → Awaits clients old nick
unfolding find_nickname_waiting_reconnect find_client
find_nickname-Awaits [] nick old e = cc
find_nickname-Awaits ((a, u) ∷ clients) nick old e =
    let test = list_eq u.client.nickname nick && u.client.waiting_reconnect in
    elim (Bool-cases test) [
      | inl here ↦
          let value : some a ≡ some old = rw here at e in
          let same : a ≡ old = cc in
          let parts = waits-parts u.client.nickname nick u.client.waiting_reconnect here in
          ([], u, clients, ap (λ x. (x, u) ∷ clients) same, parts.0, parts.1)
      | inr later ↦
          let (before, v, after, whole, named, waits) =
            find_nickname-Awaits clients nick old (rw later at e) in
          ((a, u) ∷ before, v, after, ap (λ x. (a, u) ∷ x) whole, named, waits)
    ]

find_nickname-Unawaited :
    (clients : Clients) (nick : List ℕ)
    → find_nickname_waiting_reconnect clients nick ≡ none
    → Unawaited clients nick
unfolding find_nickname_waiting_reconnect find_client
find_nickname-Unawaited [] nick e = tt
find_nickname-Unawaited ((a, u) ∷ clients) nick e =
    let test = list_eq u.client.nickname nick && u.client.waiting_reconnect in
    elim (Bool-cases test) [
      | inl here ↦ let value : some a ≡ none = rw here at e in absurd (cc)
      | inr later ↦ (
        (λ both.
            let equal : list_eq u.client.nickname nick ≡ true = rw (both.0) (list_eq_refl nick) in
            let x : false ≡ true = sym later ∙ rw (equal, both.1) refl in cc),
        find_nickname-Unawaited clients nick (rw later at e),
      )
    ]

-- A session whose client has "auth_fail!" at the end of its queue.
abbrev pub failed_session : Session → Session
failed_session s = record s {
  client = record s.client { send_queue = s.client.send_queue ++ codes "auth_fail!" ∷ [] };
}

module _ (env : Env) (crypto : Crypto) where
  open env use {Db}
  open crypto use {to_bytes}

  -- What becomes of a client whose password is right.
  abbrev pub IsWelcomed : Clients → Session → ℤ → Session × Next → Type 0
  IsWelcomed clients s id (t, next) =
      (t.client.authorized ≡ true)
      × (t.client.send_queue
          ≡ (s.client.send_queue ++ codes "auth_ok!" ∷ [])
            ++ (codes "SERVER: Welcome, " ++ get_nickname_with_color s.client ++ codes "!") ∷ [])
      × (((next ≡ go_on)
            × (t.client.state ≡ wait_enter_game)
            × (t.client.id ≡ id)
            × Unawaited clients s.client.nickname)
          ⊎ ((old : ℕ) × (next ≡ hand_over old) × Awaits clients old s.client.nickname))

  welcomed :
      (clients : Clients) (db : Db) (s : Session) (id : ℤ)
      → (t : Session) × (next : Next) × (enter_known env crypto clients db
            (record s { client = welcome env crypto s.client (codes "!") })
            id
          ≡ ok (db, t, next))
        × IsWelcomed clients s id (t, next)
  unfolding enter_known welcome push_string set_authorized set_state set_id get_nickname_with_color
  welcomed clients db s id =
      elim (Option-cases (find_nickname_waiting_reconnect clients s.client.nickname)) [
        | inr (old, e) ↦ (
          record s { client = welcome env crypto s.client (codes "!") },
          hand_over old,
          simp (enter_known, e),
          (refl, refl, inr (old, refl, find_nickname-Awaits clients s.client.nickname old e)),
        )
        | inl nobody ↦ (
          record s {
            client =
                set_state (set_id (welcome env crypto s.client (codes "!")) id) wait_enter_game;
          },
          go_on,
          simp (enter_known, nobody),
          (
            refl,
            refl,
            inl (refl, refl, refl, find_nickname-Unawaited clients s.client.nickname nobody),
          ),
        )
      ]

  -- Where the id is known and the database and the hash answer, a password message makes the client
  -- authorized just if its text is the hash of the stored password with the last salt: the client is
  -- told so and goes to the lobby with its id, or hands its socket over to a client of the set
  -- with its nickname that waits for a reconnection, if there is one; for any other text its queue gets
  -- "auth_fail!", nothing else of it changes, and the session ends.
  pub on_password-judges :
      (clients : Clients) (db db₁ : Db) (s : Session) (text stored pass : List ℕ) (id : ℤ)
      → s.id_buffer ≡ some id
      → db_get_password env crypto db id ≡ ok (db₁, 0, stored)
      → hashed env crypto (stored ++ last_salt env crypto s) ≡ ok pass
      → (pass ≡ text
          → (t : Session) × (next : Next) × (on_password env crypto clients db s text
              ≡ ok (db₁, t, next))
            × IsWelcomed clients s id (t, next))
        × (¬ (pass ≡ text)
            → on_password env crypto clients db s text ≡ ok (db₁, failed_session s, clean_up))
  unfolding on_password answer_password refuse push_string
  on_password-judges clients db db₁ s text stored pass id known answer e =
      let start = ap (answer_password env crypto clients db s text) known in
      (
        (λ same.
            let (t, next, value, facts) = welcomed clients db₁ s id in
            let equal : list_eq pass text ≡ true = rw⁻¹ same (list_eq_refl pass) in
            (t, next, start ∙ rw (answer_password, answer, e, equal) value, facts)),
        (λ differs. elim (Bool-cases (list_eq pass text)) [
          | inl equal ↦ absurd (differs (list_eq→eq pass text equal))
          | inr unequal ↦ start ∙ rw (answer_password, answer, e, unequal) refl
        ]),
      )

  -- A nickname of 217 bytes or more that no authorized client has is written past the end of the
  -- buffer for the query: on_nickname fails.
  pub on_nickname-overflows :
      (clients : Clients) (db : Db) (s : Session) (nick : List ℕ)
      → find_nickname_authorized clients nick ≡ none
      → 217 ≤ length (to_bytes nick)
      → on_nickname env crypto clients db s nick ≡ fault
  unfolding db_get_id_by_nickname sprintf_cmd on_nickname
  on_nickname-overflows clients db s nick nobody long =
      let query = codes "SELECT id FROM clients WHERE nickname='" ++ to_bytes nick ++ codes "';" in
      let size : 256 ≤ length query = omega (arith, length-append (to_bytes nick) (codes "';")) in
      let fails : db_get_id_by_nickname env crypto db nick s.id_buffer ≡ fault =
        rw (le→ltb 256 (length query) size) refl in
      simp (on_nickname, nobody, fails)
