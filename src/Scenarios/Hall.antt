-- ===== src/Scenarios/Hall.antt =====
-- A server of CardBluffServer/main.cpp with a database of two users and two connections.
use card_bluff.Prelude.{
  ℕ, ◌+◌, ◌≡◌, refl, false, List, [], ◌∷◌, none, some, codes, ◌==◌, ◌≡◌, Run, ok, fault,
  if◌then◌else◌,
}
use card_bluff.Prelude.Int.{pos}
use card_bluff.Client.{wait_password, new_client}
use card_bluff.Env.{Env, Crypto, Row}
use card_bluff.Session.{Session, Clients, reading, salt_text}
use card_bluff.Session.Message.{behind}
use card_bluff.Session.Server.{Server, lookup, receive, find_opponent, new_session}
use card_bluff.Session.Steps.{connects, receives, searches, Reach, stay, go, started}

-- Every user has the id 1 and the password "pw".
abbrev answer : List ℕ → List Row
answer cmd = elim (behind (codes "SELECT id") cmd) [
  | some rest ↦ ((some (codes "id"), some (codes "1")) ∷ []) ∷ []
  | none ↦ ((some (codes "password"), some (codes "pw")) ∷ []) ∷ []
]

abbrev pub users : Env
users = record {
  Db = Unit;
  exec = λ db cmd. record { db = db; rows = answer cmd; code = 0 };
  Double = ℕ;
  of_ll = λ a. 0;
  to_ll = λ d. pos d;
  half = 0;
  add = λ a b. a + b;
  mul = λ a b. a;
  div = λ a b. a;
  pow = λ a b. a;
  towlower = λ c. c;
  gnr = λ n. n;
}

-- Texts are their own bytes and hashes.
abbrev pub plain : Crypto
plain = record {
  to_bytes = λ text. text;
  from_bytes = λ bytes. some bytes;
  sha256 = λ text. text;
  rand64 = λ seed n. seed + n;
}

-- A client that is asked for its password, with the salt 7.
abbrev pub asked : Session
asked = record {
  client = record new_client { nickname = codes "ann"; state = wait_password };
  new_password = [];
  id_buffer = some (pos 1);
  seed = 5;
  drawn = 2;
  position = reading;
  reconnect_event = false;
}

-- The session at an address, and what a call returns.
abbrev pub session_of : Clients → ℕ → Session
session_of [] a = asked
session_of ((b, s) ∷ clients) a = if b == a then s else session_of clients a

abbrev pub result_of {ℓ} : {A : Type ℓ} → A → Run A → A
result_of default fault = default
result_of default (ok a) = a

abbrev pub Hall : Type 0
Hall = Server Unit

abbrev pub message : Hall → ℕ → List ℕ → Hall
message w a text = result_of w (receive users plain w a (session_of w.clients a) text)

abbrev pub connection : Hall → ℕ → Hall
connection w a = record w { clients = (a, new_session 5) ∷ w.clients }

-- Two clients connect, give their nicknames and passwords, and look for a duel.
abbrev pub two_connected : Hall
two_connected = connection (connection (started users plain tt) 7) 8

abbrev pub two_named : Hall
two_named = message (message two_connected 7 (codes "nickname:ann")) 8 (codes "nickname:bob")

abbrev pub two_authorized : Hall
two_authorized =
    message (message two_named 7 (codes "password:pw0000000000000007")) 8
      (codes "password:pw0000000000000007")

abbrev pub two_seeking : Hall
two_seeking = message (message two_authorized 7 (codes "/fd")) 8 (codes "/findduel")

abbrev pub two_playing : Hall
two_playing = find_opponent two_seeking

connected-reached : Reach users plain (started users plain tt) two_connected
unfolding lookup
connected-reached =
    go (go stay (connects 7 5 ((7, new_session 5) ∷ []) (refl, (refl, tt), λ b. refl))) (
      connects 8 5 ((8, new_session 5) ∷ (7, new_session 5) ∷ [])
        (refl, (refl, (refl, tt)), λ b. refl))

hears :
    (w : Hall) (a : ℕ) (text : List ℕ)
    → Reach users plain (started users plain tt) w
    → lookup w.clients a ≡ some (session_of w.clients a)
    → (session_of w.clients a).position ≡ reading
    → receive users plain w a (session_of w.clients a) text ≡ ok (message w a text)
    → Reach users plain (started users plain tt) (message w a text)
hears w a text path here reads e =
    go path (receives a (session_of w.clients a) text (message w a text) here reads e)

named-reached : Reach users plain (started users plain tt) two_named
unfolding lookup new_session receive salt_text
named-reached =
    hears (message two_connected 7 (codes "nickname:ann")) 8 (codes "nickname:bob")
      (hears two_connected 7 (codes "nickname:ann") connected-reached refl refl refl) refl refl refl

authorized-reached : Reach users plain (started users plain tt) two_authorized
unfolding lookup new_session receive salt_text
authorized-reached =
    hears (message two_named 7 (codes "password:pw0000000000000007")) 8
      (codes "password:pw0000000000000007")
      (hears two_named 7 (codes "password:pw0000000000000007") named-reached refl refl refl) refl
      refl refl

pub seeking-reached : Reach users plain (started users plain tt) two_seeking
unfolding lookup new_session receive salt_text
seeking-reached =
    hears (message two_authorized 7 (codes "/fd")) 8 (codes "/findduel")
      (hears two_authorized 7 (codes "/fd") authorized-reached refl refl refl) refl refl refl

pub playing-reached : Reach users plain (started users plain tt) two_playing
unfolding find_opponent
playing-reached = go seeking-reached searches
