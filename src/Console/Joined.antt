-- ===== src/Console/Joined.antt =====
-- CardBluffClient/main.cpp against CardBluffServer/main.cpp: the login of a user who knows the password.
use card_bluff.Prelude.{
  ℕ, ◌^◌, ◌≤◌, ◌<◌, ◌≡◌, ◌≢◌, refl, ap, ◌∙◌, true, List, ◌++◌, some, ltb, list_eq, codes, length,
  le→ltb, ok, arith,
}
use card_bluff.Prelude.Int.{ℤ}
use card_bluff.Client.{wait_password}
use card_bluff.Env.{Env, Crypto}
use card_bluff.Database.Clients.{db_get_password, converted}
use card_bluff.Session.{Session, Clients, Next, salt_text}
use card_bluff.Session.Message.{behind}
use card_bluff.Session.Login.{hashed, last_salt}
use card_bluff.Session.Server.{handle, expect}
use card_bluff.Session.Judged.{IsWelcomed, on_password-judges}
use card_bluff.Console.Scan.{scan_salt-salt_text}
use card_bluff.Console.Login.{
  Console, ConsoleState, authorized, received_in, password_enter, password_sent, on_received,
  on_request, on_second_request, on_password_request, enter_line, enter_salted, salted, hash_text,
  copied_text,
}

waiting-request :
    (x : ConsoleState) (c : Console) (text : List ℕ)
    → x ≢ authorized
    → received_in x c text ≡ on_request c text
unfolding received_in
waiting-request authorized c text h = absurd (h refl)
waiting-request _ c text h = refl

-- The request of the server brings its salt.
on_received-request :
    (c : Console) (n : ℕ)
    → n < 2 ^ 64
    → c.state ≢ authorized
    → on_received c (codes "password?" ++ salt_text n)
      ≡ record c { salt = some n; state = password_enter }
unfolding on_received on_request on_second_request on_password_request behind list_eq
on_received-request c n h waits =
    waiting-request c.state c (codes "password?" ++ salt_text n) waits
    ∙ ap (λ o. record c { salt = o; state = password_enter }) (scan_salt-salt_text n h)

module _ (env : Env) (crypto : Crypto) where
  open env use {Db}

  -- The message for a password of which the hashes are known.
  enter_line-password :
      (c : Console) (n : ℕ) (line stored pass : List ℕ)
      → c.salt ≡ some n
      → 4 ≤ length line
      → hash_text crypto line ≡ ok stored
      → hash_text crypto (stored ++ salt_text n) ≡ ok pass
      → length pass ≤ 240
      → enter_line crypto password_enter c line
        ≡ ok (record c { state = password_sent }, some (codes "password:" ++ pass))
  unfolding enter_line enter_salted
  enter_line-password c n line stored pass known long first second short =
      let salts : salted crypto c line ≡ ok pass = simp (salted, known, first, second) in
      let room : ltb (length (codes "password:" ++ pass)) 256 ≡ true = ground arith in
      let fits : copied_text (codes "password:" ++ pass) ≡ ok (codes "password:" ++ pass) =
        simp (copied_text, room) in
      simp (enter_line, enter_salted, le→ltb 4 (length line) long, salts, fits)

  -- Where the console client gets the request with the server's last salt, a number of 64 bits, and the
  -- user enters a password of at least 4 characters whose hash the database has, the server reads the
  -- text that the client sends as the right answer, and the client is authorized. The hashes are texts of
  -- at most 240 characters.
  pub login-IsWelcomed :
      (c : Console) (clients : Clients) (db db₁ : Db) (s : Session) (line stored pass : List ℕ)
      (id : ℤ)
      → c.state ≢ authorized
      → crypto.rand64 s.seed s.drawn < 2 ^ 64
      → 4 ≤ length line
      → hash_text crypto line ≡ ok stored
      → hash_text crypto (stored ++ last_salt env crypto s) ≡ ok pass
      → length pass ≤ 240
      → s.id_buffer ≡ some id
      → db_get_password env crypto db id ≡ ok (db₁, 0, stored)
      → (c' : Console) × (text : List ℕ) × (t : Session) × (next : Next) × (enter_line crypto
            (on_received c (codes "password?" ++ last_salt env crypto s)).state
            (on_received c (codes "password?" ++ last_salt env crypto s))
            line
          ≡ ok (c', some text))
        × (handle env crypto wait_password clients db s text ≡ ok (db₁, t, next))
        × IsWelcomed env crypto clients s id (t, next)
  unfolding handle expect behind hash_text hashed converted
  login-IsWelcomed c clients db db₁ s line stored pass id waits small long first second short known
        answer =
      let n = crypto.rand64 s.seed s.drawn in
      let asked : Console = record c { salt = some n; state = password_enter } in
      let (t, next, value, welcomed) =
        (on_password-judges env crypto clients db db₁ s pass stored pass id known answer second).0
          refl in
      (
        record asked { state = password_sent },
        codes "password:" ++ pass,
        t,
        next,
        ap (λ x. enter_line crypto x.state x line) (on_received-request c n small waits)
            ∙ enter_line-password asked n line stored pass refl long first second short,
        value,
        welcomed,
      )
