-- ===== src/Scenarios/Consoles.antt =====
-- The theorems on the console client of CardBluffClient, and on the ratings of
-- CardBluffServer/ratings.cpp, at concrete inputs.
use card_bluff.Prelude.{
  ℕ, ◌≡◌, refl, true, false, List, [], ◌∷◌, ◌++◌, none, some, codes, ok, arith, take, drop, list_eq,
}
use card_bluff.Prelude.Int.{pos, ◌+ℤ◌, ◌-ℤ◌}
use card_bluff.Text.{escape_special_chars, color_that_thing, ll_to_string}
use card_bluff.Client.{wait_password}
use card_bluff.Env.{Env}
use card_bluff.Database.{
  sprintf_cmd, call_back, scan_ll, db_get_rating, db_set_rating, db_get_rating_cb,
}
use card_bluff.Database.Clients.{converted, db_get_password, db_get_password_cb}
use card_bluff.Ratings.{Update, update_ratings, write_ratings, new_ratings, rating_delta, long_long}
use card_bluff.Ratings.Balance.{Exchange, update_ratings-Exchange}
use card_bluff.Session.{Session, Next, salt_text}
use card_bluff.Session.Login.{last_salt}
use card_bluff.Session.Server.{handle}
use card_bluff.Session.Judged.{IsWelcomed}
use card_bluff.Game.Deal.{cards_to_string, card_texts}
use card_bluff.Console.Scan.{scan_salt, scan_salt-salt_text}
use card_bluff.Console.Login.{Console, nickname_sent, on_received, enter_line, hash_text}
use card_bluff.Console.Joined.{login-IsWelcomed}
use card_bluff.Console.Highlight.{win_print_with_highlight, in_one, win_print-color_that_thing}
use card_bluff.Console.Editor.{
  Editor, Key, printed, key_left, key_backspace, key_enter, press, press_all, IsFit, AreShort,
  press_all-IsFit, backspace-insert,
}
use card_bluff.Console.Shown.{
  show_message, shaded, highlighted, highlight_shade, default_shade, server_shade, drawn_cards,
  show_message-cards_to_string, show_message-chat,
}
use card_bluff.Scenarios.Hall.{users, plain, asked}

scan_salt-salt_text_example : scan_salt (salt_text 81985529216486895) ≡ some 81985529216486895
scan_salt-salt_text_example = scan_salt-salt_text 81985529216486895 (omega arith)

-- The answer to the nickname is awaited.
abbrev waiting_console : Console
waiting_console = record { state = nickname_sent; salt = none; shown = [] }

-- The session of a user with the password "pass".
abbrev pass_user : Env
pass_user = record users {
  exec = λ db cmd. record {
    db = db;
    rows = ((some (codes "password"), some (codes "pass")) ∷ []) ∷ [];
    code = 0;
  };
}

login-IsWelcomed_example :
    (c' : Console) × (text : List ℕ) × (t : Session) × (next : Next) × (enter_line plain
        (on_received waiting_console (codes "password?" ++ last_salt pass_user plain asked)).state
        (on_received waiting_console (codes "password?" ++ last_salt pass_user plain asked))
        (codes "pass")
      ≡ ok (c', some text))
    × (handle pass_user plain wait_password [] tt asked text ≡ ok (tt, t, next))
    × IsWelcomed pass_user plain [] asked (pos 1) (t, next)
unfolding hash_text salt_text db_get_password db_get_password_cb call_back sprintf_cmd ll_to_string
    converted list_eq
login-IsWelcomed_example =
    login-IsWelcomed pass_user plain waiting_console [] tt tt asked (codes "pass") (codes "pass")
      (codes "pass0000000000000007") (pos 1) (λ e. cc) (omega arith) (omega arith) refl refl
      (omega arith) refl refl

win_print-color_that_thing_example :
    (win_print_with_highlight (escape_special_chars (codes "5%") ++ codes " %x%")
      ≡ in_one false (codes "5%") ++ win_print_with_highlight (codes " %x%"))
    × (win_print_with_highlight
          (color_that_thing (escape_special_chars (codes "5%")) ++ codes ": hi")
        ≡ in_one true (codes "5%") ++ win_print_with_highlight (codes ": hi"))
win_print-color_that_thing_example =
    win_print-color_that_thing (codes "5%") (codes " %x%") (codes ": hi")

show_message-chat_example :
    show_message (codes "USER " ++ color_that_thing (codes "bob") ++ codes ": hi")
    ≡ some (
        (shaded highlight_shade (codes "bob") ++ highlighted (codes ": hi"))
        ++ shaded default_shade (codes "\n"))
show_message-chat_example =
    show_message-chat (codes "bob") (codes ": hi") (refl, (refl, (refl, tt)))

show_message-cards_to_string_example :
    show_message (codes "CARDS:2:0,A:3,0" ++ codes "Your cards: ")
    ≡ some (
        shaded server_shade (codes "SERVER: ")
        ++ highlighted (codes "Your cards: ")
        ++ drawn_cards ((0, b'A') ∷ (3, b'0') ∷ [])
        ++ shaded default_shade (codes "\n"))
unfolding cards_to_string card_texts ll_to_string
show_message-cards_to_string_example =
    show_message-cards_to_string 48 (35 ∷ []) (codes "CARDS:2:0,A:3,0") (codes "Your cards: ")
      (omega arith) refl

abbrev typed : List Key
typed = printed b'h' ∷ printed b'i' ∷ key_left ∷ key_backspace ∷ key_enter ∷ printed b'x' ∷ []

press_all-IsFit_example :
    IsFit 78 (press_all 78 (record { input_buffer = []; cursor = 0 }) typed).0
    × AreShort 78 (press_all 78 (record { input_buffer = []; cursor = 0 }) typed).1
press_all-IsFit_example =
    press_all-IsFit 78 (record { input_buffer = []; cursor = 0 }) typed (omega arith, omega arith)

abbrev word_editor : Editor
word_editor = record { input_buffer = codes "helo"; cursor = 2 }

backspace-insert_example :
    (take 3 (press 78 word_editor (printed b'l')).0.input_buffer ≡ codes "he" ++ b'l' ∷ [])
    × (drop 3 (press 78 word_editor (printed b'l')).0.input_buffer ≡ codes "lo")
    × (press 78 (press 78 word_editor (printed b'l')).0 key_backspace ≡ (word_editor, none))
backspace-insert_example = backspace-insert 78 word_editor b'l' (omega arith) (omega arith)

-- Both ratings are 1200 in this database, nothing is kept of what is written, and every difference is
-- 32.
abbrev rated : Env
rated = record users {
  to_ll = λ d. pos 32;
  exec = λ db cmd. record {
    db = db;
    rows = ((some (codes "rating"), some (codes "1200")) ∷ []) ∷ [];
    code = 0;
  };
}

abbrev exchanged_points : Update
exchanged_points = record { winner_rating = pos 1232; loser_rating = pos 1168; delta = pos 32 }

update_ratings-Exchange_example : Exchange rated tt (pos 1) (pos 2) tt exchanged_points
unfolding update_ratings write_ratings new_ratings rating_delta long_long db_get_rating
    db_set_rating db_get_rating_cb sprintf_cmd call_back scan_ll ll_to_string list_eq ◌+ℤ◌ ◌-ℤ◌
update_ratings-Exchange_example =
    update_ratings-Exchange rated tt (pos 1) (pos 2) tt exchanged_points refl
