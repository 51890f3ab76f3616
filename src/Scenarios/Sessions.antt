-- ===== src/Scenarios/Sessions.antt =====
-- The theorems on the sessions of CardBluffServer/main.cpp at concrete servers.
use card_bluff.Prelude.{
  ℕ, ◌≡◌, ◌≤◌, refl, true, [], ◌∷◌, ◌++◌, some, codes, ok, fault, arith, replicate, list_eq, inl,
  inr, Bool-cases, ==→eq, ◌==◌,
}
use card_bluff.Prelude.Int.{pos}
use card_bluff.Client.{
  new_client, get_nickname_with_color, wait_nickname, wait_password, in_game_state, set_id,
  set_state, set_authorized, set_nickname, push_string_format, push_string,
}
use card_bluff.Client.Sending.{send_from_queue, Delivers, send_from_queue-Delivers}
use card_bluff.Database.{scan_ll, sprintf_cmd, call_back}
use card_bluff.Database.Clients.{
  converted, db_get_password, db_get_password_cb, db_get_id_by_nickname, db_get_id_by_nickname_cb,
}
use card_bluff.Database.Decimal.{scan_ll-ll_to_string}
use card_bluff.Text.{ll_to_string}
use card_bluff.Session.{Session, Clients, Next, clean_up, salt_text}
use card_bluff.Session.Message.{lines_for, scan_u, behind}
use card_bluff.Session.Login.{
  find_client, find_nickname_authorized, on_nickname, on_password, answer_password, ask_password,
  request_salted, hashed, enter_known, find_nickname_waiting_reconnect, welcome,
}
use card_bluff.Session.Server.{lookup, handle, receive, new_session, find_opponent, expect}
use card_bluff.Session.Judged.{
  lines_for-bounds, on_password-judges, on_nickname-overflows, IsWelcomed, failed_session,
}
use card_bluff.Session.Paired.{Seeker}
use card_bluff.Session.Pairing.{ArePaired, find_opponent-ArePaired}
use card_bluff.Session.Settling.{IsSettled}
use card_bluff.Session.Reached.{reached-IsSettled}
use card_bluff.Session.Lobby.{find_duel}
use card_bluff.Session.Races.{begin_find_duel, end_find_duel, interrupted, IsTorn, find_duel-IsTorn}
use card_bluff.Session.Named.{IsNamed, handle-IsNamed}
use card_bluff.Session.Chat.{IsTold, receive-chat}
use card_bluff.Scenarios.Hall.{
  Hall, message, session_of, two_authorized, two_seeking, two_playing, playing-reached, users,
  plain, asked,
}

scan_ll-ll_to_string_example : scan_ll (ll_to_string (pos 1200) true) ≡ some (pos 1200)
scan_ll-ll_to_string_example = scan_ll-ll_to_string (pos 1200) true

lines_for-bounds_example : (1 ≤ 100) × (100 ≤ 100)
unfolding lines_for scan_u
lines_for-bounds_example = lines_for-bounds (codes " 250") 100 refl

on_nickname-overflows_example : on_nickname users plain [] tt asked (replicate 230 b'a') ≡ fault
unfolding find_nickname_authorized find_client
on_nickname-overflows_example =
    on_nickname-overflows users plain [] tt asked (replicate 230 b'a') refl (omega arith)

on_password-judges_example :
    (codes "pw0000000000000007" ≡ codes "pw0000000000000007"
      → (t : Session) × (next : Next) × (on_password users plain [] tt asked
            (codes "pw0000000000000007")
          ≡ ok (tt, t, next))
        × IsWelcomed users plain [] asked (pos 1) (t, next))
    × (¬ (codes "pw0000000000000007" ≡ codes "pw0000000000000007")
        → on_password users plain [] tt asked (codes "pw0000000000000007")
          ≡ ok (tt, failed_session asked, clean_up))
unfolding hashed converted db_get_password db_get_password_cb call_back sprintf_cmd ll_to_string
    behind salt_text list_eq
on_password-judges_example =
    on_password-judges users plain [] tt tt asked (codes "pw0000000000000007") (codes "pw")
      (codes "pw0000000000000007") (pos 1) refl refl refl

welcome_of : Session
unfolding handle on_password answer_password hashed converted db_get_password db_get_password_cb
    call_back sprintf_cmd ll_to_string behind salt_text list_eq expect enter_known
    find_nickname_waiting_reconnect welcome set_id set_state set_authorized push_string
welcome_of =
    elim (handle users plain wait_password [] tt asked (codes "password:pw0000000000000007")) [
      | ok (db, t, next) ↦ t
      | fault ↦ asked
    ]

send_from_queue-Delivers_example :
    Delivers
      (λ text. text)
      (λ bytes. some 256)
      (send_from_queue
        (λ text. text)
        (λ bytes. some 256)
        (replicate 256 1)
        (record new_client { send_queue = codes "auth_ok!" ∷ [] }))
      (codes "auth_ok!")
      []
send_from_queue-Delivers_example =
    send_from_queue-Delivers (λ text. text) (λ bytes. some 256) (replicate 256 1)
      (record new_client { send_queue = codes "auth_ok!" ∷ [] }) (codes "auth_ok!") [] refl refl
      (omega arith)

reached-IsSettled_example : IsSettled two_playing.clients
reached-IsSettled_example = reached-IsSettled users plain tt playing-reached

find_opponent-ArePaired_example :
    (a : ℕ) × (b : ℕ) × (s : Session) × (t : Session) × Seeker two_seeking.clients a s
    × Seeker two_seeking.clients b t
    × (¬ (a ≡ b))
    × ArePaired two_seeking (find_opponent two_seeking) a b s t
unfolding lookup new_session receive salt_text
find_opponent-ArePaired_example =
    find_opponent-ArePaired two_seeking 7 8 (session_of two_seeking.clients 7)
      (session_of two_seeking.clients 8) (refl, (refl, tt)) (refl, refl) (refl, refl) (omega arith)

-- Two clients that play with each other.
abbrev talker : ℕ → Session
talker b = record asked {
  client = record asked.client {
    state = in_game_state;
    in_game = true;
    opponent = some b;
    game = some 0;
  };
}

abbrev talking : Hall
talking = record {
  db = tt;
  clients = (7, talker 8) ∷ (8, talker 7) ∷ [];
  calls = [];
  next_game = 1;
}

receive-chat_example :
    (clients : Clients) × (receive users plain talking 7 (talker 8) (codes "hi")
      ≡ ok (record talking { clients = clients }))
    × IsTold talking.clients clients 8
        (talker 7)
        (codes "USER " ++ get_nickname_with_color (talker 8).client ++ codes ": " ++ codes "hi")
unfolding lookup behind
receive-chat_example =
    receive-chat users plain talking 7 8 (talker 8) (talker 7) (codes "hi") (codes "hi") refl refl
      (omega arith) refl refl refl refl

named_of : Session
unfolding handle expect behind on_nickname find_nickname_authorized find_client
    db_get_id_by_nickname db_get_id_by_nickname_cb call_back sprintf_cmd ask_password request_salted
    push_string_format push_string set_state set_nickname salt_text new_session new_client scan_ll
    ll_to_string list_eq
named_of = elim (handle users plain wait_nickname [] tt (new_session 5) (codes "nickname:ann")) [
  | ok (db, t, next) ↦ t
  | fault ↦ asked
]

handle-IsNamed_example : IsNamed users plain (new_session 5) tt (codes "ann") tt named_of
unfolding handle expect behind on_nickname find_nickname_authorized find_client
    db_get_id_by_nickname db_get_id_by_nickname_cb call_back sprintf_cmd ask_password request_salted
    push_string_format push_string set_state set_nickname salt_text new_session new_client scan_ll
    ll_to_string list_eq named_of
handle-IsNamed_example =
    handle-IsNamed users plain [] tt tt (new_session 5) named_of (codes "ann") refl

-- One of two clients in the lobby seeks an opponent.
abbrev one_seeking : Hall
one_seeking = message two_authorized 8 (codes "/fd")

only_second : (c : ℕ) (u : Session) → Seeker one_seeking.clients c u → ¬ (7 ≡ c) → 8 ≡ c
unfolding lookup new_session receive salt_text
only_second c u h far = elim (Bool-cases (8 == c)) [
  | inl same ↦ ==→eq 8 c same
  | inr other ↦ elim (Bool-cases (7 == c)) [
    | inl same ↦ absurd (far (==→eq 7 c same))
    | inr neither ↦ let x = rw (other, neither) at h.0 in absurd (cc)
  ]
]

find_duel-IsTorn_example :
    (find_duel (session_of one_seeking.clients 7)
      ≡ end_find_duel (begin_find_duel (session_of one_seeking.clients 7)))
    × IsTorn (interrupted one_seeking 7) 7 8
unfolding lookup new_session receive salt_text
find_duel-IsTorn_example =
    find_duel-IsTorn one_seeking 7 8 (session_of one_seeking.clients 7)
      (session_of one_seeking.clients 8) (refl, (refl, tt)) refl (refl, refl) (omega arith) refl
      refl only_second
