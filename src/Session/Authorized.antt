-- ===== src/Session/Authorized.antt =====
-- Who becomes authorized in CardBluffServer/main.cpp: a client that sends the right hash.
use card_bluff.Prelude.{ℕ, ◌≡◌, ◌⊎◌, true, List, ◌++◌, some, ok, codes}
use card_bluff.Prelude.Int.{ℤ}
use card_bluff.Client.{wait_password_register_second, wait_password}
use card_bluff.Env.{Env, Crypto}
use card_bluff.Database.Clients.{db_get_password, db_add_client}
use card_bluff.Session.{Session, Clients, Next}
use card_bluff.Session.Message.{behind}
use card_bluff.Session.Login.{hashed, last_salt}

module _ (env : Env) (crypto : Crypto) where
  open env use {Db}

  -- A known user: the text is the hash of the password in the database with the salt.
  abbrev pub IsLogin : Session → Db → List ℕ → Type 0
  IsLogin s db text =
      (id : ℤ) × (stored : List ℕ) × (db₁ : Db) × (s.id_buffer ≡ some id)
      × (db_get_password env crypto db id ≡ ok (db₁, 0, stored))
      × (hashed env crypto (stored ++ last_salt env crypto s) ≡ ok text)

  -- A new user: the text is the hash of the new password with the salt, and the user was added.
  abbrev pub IsRegistration : Session → Db → List ℕ → Type 0
  IsRegistration s db text =
      (db₁ : Db) × (hashed env crypto (s.new_password ++ last_salt env crypto s) ≡ ok text)
      × (db_add_client env crypto db s.client.nickname s.new_password ≡ ok (db₁, 0))

  -- A message that may make a client authorized.
  abbrev pub IsAdmitted : Session → Db → List ℕ → Type 0
  IsAdmitted s db message =
      ((text : List ℕ) × (s.client.state ≡ wait_password)
        × (behind (codes "password:") message ≡ some text)
        × IsLogin s db text)
      ⊎ ((text : List ℕ) × (s.client.state ≡ wait_password_register_second)
          × (behind (codes "password_second:") message ≡ some text)
          × IsRegistration s db text)

  abbrev Admits : Type 0 → Db × Session × Next → Type 0
  Admits P (db, t, next) = t.client.authorized ≡ true → P
