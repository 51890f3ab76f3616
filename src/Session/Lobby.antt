-- ===== src/Session/Lobby.antt =====
-- The states of `client_to_server` in CardBluffServer/main.cpp after a client is authorized: chat, the
-- search for a duel, the list of the best players, and the commands of a game.
use card_bluff.Prelude.{
  ℕ, suc, true, false, List, [], ◌∷◌, ◌++◌, none, some, ◌==◌, ◌||◌, if◌then◌else◌, list_eq, codes,
  Run, ok, ◌>>=◌,
}
use card_bluff.Prelude.Int.{ℤ, pos}
use card_bluff.Text.{ll_to_string, color_that_thing}
use card_bluff.Client.{
  wait_enter_game, wait_opponent, in_game_state, push_string, push_strings, get_nickname_with_color,
  set_state, set_finding_duel,
}
use card_bluff.Env.{Env, Crypto}
use card_bluff.Database.Clients.{db_get_top}
use card_bluff.Session.{Session, Next, go_on, tell_opponent, game_command}
use card_bluff.Session.Message.{behind, lines_for}

abbrev pub with_text : Session → List ℕ → Session
unfolding push_string
with_text s text = record s { client = push_string s.client text }

unfoldable pub chat : Session → List ℕ → Session × Next
unfolding push_string get_nickname_with_color
chat s text = elim s.client.state [
  | in_game_state ↦
      (s, tell_opponent (codes "USER " ++ get_nickname_with_color s.client ++ codes ": " ++ text))
  | _ ↦ (with_text s (codes "SERVER: You should find an opponent to use chat."), go_on)
]

unfoldable pub find_duel : Session → Session
unfolding push_string set_finding_duel set_state
find_duel s = elim s.client.state [
  | wait_enter_game ↦ record s {
    client =
        set_state
          (push_string (set_finding_duel s.client true)
            (codes "SERVER: Finding an opponent for you..."))
          wait_opponent;
  }
  | wait_opponent ↦ with_text s (codes "SERVER: Opponent search is already in progress!")
  | in_game_state ↦ with_text s (codes "SERVER: You are already in game!")
  | _ ↦ s
]

unfoldable pub cancel : Session → Session
unfolding push_string set_finding_duel set_state
cancel s = elim s.client.state [
  | wait_opponent ↦ record s {
    client =
        set_state
          (push_string (set_finding_duel s.client false) (codes "SERVER: Duel finding canceled."))
          wait_enter_game;
  }
  | _ ↦ with_text s (codes "SERVER: Nothing to cancel!")
]

unfoldable pub top_lines : ℕ → List (List ℕ × ℤ) → List (List ℕ)
unfolding color_that_thing ll_to_string
top_lines i [] = []
top_lines i ((nickname, rating) ∷ top) =
    (codes "SERVER: "
      ++ ll_to_string (pos (suc i)) false
      ++ codes ". "
      ++ color_that_thing nickname
      ++ codes " - "
      ++ ll_to_string rating false)
    ∷ top_lines (suc i) top

unfoldable pub other_command : Session → List ℕ → Session × Next
unfolding push_string
other_command s text = elim s.client.state [
  | in_game_state ↦ (s, game_command text)
  | _ ↦ (with_text s (codes "SERVER: Invalid command!"), go_on)
]

-- The commands that neither read the database nor ask for a list.
unfoldable pub plain_command : Session → List ℕ → Session × Next
unfolding push_string other_command list_eq
plain_command s text =
    if list_eq text (codes "/help")
    then (with_text s (codes "SERVER: Command '/help' is not supported yet."), go_on)
    else other_command s text

module _ (env : Env) (crypto : Crypto) where
  open env use {Db}

  unfoldable pub show_top : Db → Session → List ℕ → Run (Db × Session)
  unfolding lines_for db_get_top push_string push_strings top_lines
  show_top db s rest = do
    n ← lines_for rest
    (db₁, code, top) ← db_get_top env crypto db n
    if code == 0
        then ok (db₁, record s { client = push_strings s.client (top_lines 0 top) })
        else ok (db₁, with_text s (codes "SERVER: Sorry, something went wrong..."))

  unfoldable pub on_top : Db → Session → List ℕ → Run (Db × Session × Next)
  unfolding show_top plain_command behind
  on_top db s text = elim (behind (codes "/top") text) [
    | some rest ↦ show_top db s rest >>= λ r. ok (r.0, r.1, go_on)
    | none ↦ ok (db, (plain_command s text).0, (plain_command s text).1)
  ]

  unfoldable pub on_command : Db → Session → List ℕ → Run (Db × Session × Next)
  unfolding find_duel cancel on_top list_eq
  on_command db s text =
      if list_eq text (codes "/findduel") || list_eq text (codes "/fd")
      then ok (db, find_duel s, go_on)
      else if list_eq text (codes "/cancel")
      then ok (db, cancel s, go_on)
      else on_top db s text

  unfoldable pub in_lobby : Db → Session → List ℕ → Run (Db × Session × Next)
  unfolding chat on_command behind
  in_lobby db s text = elim (behind (codes "/") text) [
    | none ↦ ok (db, (chat s text).0, (chat s text).1)
    | some rest ↦ on_command db s text
  ]
