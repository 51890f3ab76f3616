-- ===== src/Console/Login.antt =====
-- CardBluffClient/main.cpp: what the console client does with a message of the server and with a line
-- that the user has entered. Its connection and the keys of `WAIT_RECONNECT_OR_QUIT` are left out.
use card_bluff.Prelude.{
  ℕ, Bool, false, List, [], ◌∷◌, ◌++◌, Option, none, some, ◌==◌, ◌||◌, if◌then◌else◌, ltb, list_eq,
  codes, length, take, Run, ok, fault, ◌>>=◌,
}
use card_bluff.Env.{Crypto}
use card_bluff.Session.{salt_text}
use card_bluff.Session.Message.{behind}
use card_bluff.Console.Scan.{scan_salt}

pub data ConsoleState : Type 0 where
  not_connected connection_lost connect wait_reconnect_or_quit : ConsoleState
  nickname_enter nickname_sent : ConsoleState
  password_register_first_enter password_register_first_sent : ConsoleState
  password_register_second_enter password_register_second_sent : ConsoleState
  password_enter password_sent : ConsoleState
  authorized authorization_failed : ConsoleState

pub record Console : Type 0 where
  pub state : ConsoleState
  -- `none` before a salt is read.
  pub salt : Option ℕ
  -- The lines given to the output window.
  pub shown : List (List ℕ)

abbrev pub nickname_size_min : ℕ
nickname_size_min = 3

abbrev pub password_size_min : ℕ
password_size_min = 4

unfoldable pub show : Console → List ℕ → Console
show c text = record c { shown = c.shown ++ text ∷ [] }

-- A message that is no request and no answer is shown.
unfoldable pub on_other : Console → List ℕ → Console
unfolding show list_eq
on_other c text =
    if list_eq text (codes "auth_ok!")
    then record c { state = authorized }
    else if list_eq text (codes "auth_fail!")
    then record c { state = authorization_failed }
    else show c text

unfoldable pub on_password_request : Console → List ℕ → Console
unfolding on_other scan_salt behind
on_password_request c text = elim (behind (codes "password?") text) [
  | some rest ↦ record c { salt = scan_salt rest; state = password_enter }
  | none ↦ on_other c text
]

unfoldable pub on_second_request : Console → List ℕ → Console
unfolding on_password_request scan_salt behind
on_second_request c text = elim (behind (codes "password_second?") text) [
  | some rest ↦ record c { salt = scan_salt rest; state = password_register_second_enter }
  | none ↦ on_password_request c text
]

unfoldable pub on_request : Console → List ℕ → Console
unfolding on_second_request list_eq
on_request c text =
    if list_eq text (codes "password_first?")
    then record c { state = password_register_first_enter }
    else on_second_request c text

unfoldable pub received_in : ConsoleState → Console → List ℕ → Console
unfolding on_request show
received_in authorized c text = show c text
received_in _ c text = on_request c text

-- A message, as text; an empty one is passed over.
unfoldable pub on_received : Console → List ℕ → Console
unfolding received_in
on_received c [] = c
on_received c (d ∷ text) = received_in c.state c (d ∷ text)

abbrev is_not_allowed : ℕ → Bool
is_not_allowed c = c == b':' || c == b'%' || c == b'\\'

-- `wcscspn(text, NICKNAME_CHARS_NOT_ALLOWED) < size`.
unfoldable pub has_not_allowed : List ℕ → Bool
has_not_allowed [] = false
has_not_allowed (c ∷ text) = is_not_allowed c || has_not_allowed text

-- An error, and that the user shall try again.
abbrev pub refused : Console → List ℕ → Run (Console × Option (List ℕ))
refused c text = ok (record c { shown = c.shown ++ text ∷ codes "Please try again.\n" ∷ [] }, none)

abbrev sent : Console → ConsoleState → List ℕ → Run (Console × Option (List ℕ))
sent c state text = ok (record c { state = state }, some text)

-- `wcscpy` into the 256 characters of `send_buffer`.
unfoldable pub copied_text : List ℕ → Run (List ℕ)
copied_text text = if ltb (length text) 256 then ok text else fault

unfoldable pub enter_nickname : Console → List ℕ → Run (Console × Option (List ℕ))
unfolding has_not_allowed
enter_nickname c line =
    if ltb (length line) nickname_size_min
    then refused c (codes "ERROR: Nickname should contain at least 3 characters!")
    else if has_not_allowed line
    then refused c (codes "ERROR: Nickname shouldn't contain these characters: :%\\")
    else sent c nickname_sent (take 255 (codes "nickname:" ++ line))

module _ (crypto : Crypto) where
  open crypto use {to_bytes, from_bytes, sha256}

  unfoldable pub hash_text : List ℕ → Run (List ℕ)
  hash_text text = elim (from_bytes (sha256 (to_bytes text))) [ none ↦ fault | some str ↦ ok str ]

  -- The hash of the hash of the password with the salt; a salt that was not read is not initialised.
  unfoldable pub salted : Console → List ℕ → Run (List ℕ)
  unfolding hash_text salt_text
  salted c line = elim c.salt [
    | none ↦ fault
    | some n ↦ hash_text line >>= λ pass. hash_text (pass ++ salt_text n)
  ]

  unfoldable pub enter_first : Console → List ℕ → Run (Console × Option (List ℕ))
  unfolding hash_text copied_text
  enter_first c line =
      if ltb (length line) password_size_min
      then refused c (codes "ERROR: Password should contain at least 4 characters!")
      else (do
        pass ← hash_text line
        text ← copied_text (codes "password_first:" ++ pass)
        sent c password_register_first_sent text)

  unfoldable pub enter_salted :
      List ℕ → ConsoleState → Console → List ℕ → Run (Console × Option (List ℕ))
  unfolding salted copied_text
  enter_salted prefix state c line =
      if ltb (length line) password_size_min
      then refused c (codes "ERROR: Password should contain at least 4 characters!")
      else (do pass ← salted c line; text ← copied_text (prefix ++ pass); sent c state text)

  -- A line that was entered, on the state; the second result is what is to be sent. In the other states
  -- no line is read.
  unfoldable pub enter_line : ConsoleState → Console → List ℕ → Run (Console × Option (List ℕ))
  unfolding enter_nickname enter_first enter_salted
  enter_line nickname_enter c line = enter_nickname c line
  enter_line password_register_first_enter c line = enter_first c line
  enter_line password_register_second_enter c line =
      enter_salted (codes "password_second:") password_register_second_sent c line
  enter_line password_enter c line = enter_salted (codes "password:") password_sent c line
  enter_line authorized c line = ok (c, some (take 255 line))
  enter_line _ c line = ok (c, none)
