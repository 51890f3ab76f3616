-- ===== src/Session.antt =====
-- The sessions of CardBluffServer/main.cpp: the thread `client_to_server` of each connection, the set
-- `clients`, and the search for opponents.
pub mod Message
pub mod Login
pub mod Lobby
pub mod Server
pub mod Steps
pub mod Sound
pub mod Kept
pub mod Handled
pub mod Entered
pub mod Played
pub mod Paired
pub mod Linked
pub mod Games
pub mod Settling
pub mod Duels
pub mod Authorized
pub mod Judged
pub mod Pairing
pub mod Chat
pub mod Races
pub mod Named
pub mod Reached
use card_bluff.Prelude.{
  ℕ, zero, suc, ◌+◌, ◌/◌, ◌%◌, ◌^◌, ◌-◌, Bool, List, [], ◌∷◌, ◌++◌, Option, none, some, ltb,
  if◌then◌else◌,
}
use card_bluff.Prelude.Int.{ℤ}
use card_bluff.Client.{Client}

-- Where a receiving thread is: at the reading of a message, at the wait for `reconnect_event`, or in
-- `client_to_server_cleanup`, at the wait for the client's game to end.
pub data Position : Type 0 where
  reading awaiting closing : Position

-- A client with the local variables of its receiving thread.
pub record Session : Type 0 where
  pub client : Client
  pub new_password : List ℕ
  -- The variable is not initialised.
  pub id_buffer : Option ℤ
  -- The seed of `random`, and how many numbers it has given.
  pub seed : ℕ
  pub drawn : ℕ
  pub position : Position
  pub reconnect_event : Bool

-- The set `clients`, in the order in which it is gone through, with the clients' addresses.
abbrev pub Clients : Type 0
Clients = List (ℕ × Session)

-- How the handling of a message ends, and what it does to the other objects: the thread waits for
-- the next message; it goes to `client_to_server_cleanup`; it gives its socket to a client that
-- waits for a reconnection, and ends; it pushes a text to the opponent; it pushes a command to the
-- game.
pub data Next : Type 0 where
  go_on clean_up : Next
  hand_over : ℕ → Next
  tell_opponent game_command : List ℕ → Next

-- "%08x%08x" of the halves of a 64-bit number.
abbrev pub hex_digit : ℕ → ℕ
hex_digit d = if ltb d 10 then b'0' + d else b'a' + (d - 10)

unfoldable pub hex_digits : ℕ → ℕ → List ℕ
hex_digits zero n = []
hex_digits (suc k) n = hex_digits k (n / 16) ++ hex_digit (n % 16) ∷ []

unfoldable pub salt_text : ℕ → List ℕ
unfolding hex_digits
salt_text n = hex_digits 8 (n / 2 ^ 32 % 2 ^ 32) ++ hex_digits 8 (n % 2 ^ 32)
