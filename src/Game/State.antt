-- ===== src/Game/State.antt =====
-- The data of CardBluffServer/game.h, and the functions on whose move it is. The two players are the
-- only clients that a game refers to, so a `Client*` is a `Seat`, and `nullptr` does not occur.
use card_bluff.Prelude.{ℕ, ◌+◌, ◌-◌, ◌*◌, Bool, true, false, List, [], ◌∷◌, ◌++◌, ◌==◌}
use card_bluff.Prelude.Int.{ℤ, pos, negsuc}
use card_bluff.Client.{Client}
use card_bluff.Combinations.Hand.{Hand}

-- common.h.
abbrev pub all_cards : ℕ
all_cards = 52

abbrev pub start_card_number : ℕ
start_card_number = 5

abbrev pub equality_card_number : ℕ
equality_card_number = 10

abbrev pub tie_card_number : ℕ
tie_card_number = 26

-- `MOVE_TIMEOUT`, 60 seconds, in the clock's ticks; a tick is a microsecond.
abbrev pub second : ℕ
second = 1_000_000

abbrev pub move_timeout : ℕ
move_timeout = 60 * second

pub data CurrentMove : Type 0 where
  first_player_move second_player_move : CurrentMove

pub data RoundResult : Type 0 where
  first_player_lost_round second_player_lost_round : RoundResult
  first_player_lost_game second_player_lost_game : RoundResult
  tie_in_round tie_in_game : RoundResult

-- `FinishedGame`.
abbrev pub finished_game : RoundResult → Bool
finished_game first_player_lost_game = true
finished_game second_player_lost_game = true
finished_game tie_in_game = true
finished_game _ = false

pub data CommandType : Type 0 where
  move_command reconnect disconnect : CommandType

pub data Seat : Type 0 where
  first_player second_player : Seat

pub record Command : Type 0 where
  pub sender : Seat
  pub cmd : List ℕ
  pub move : CurrentMove
  pub kind : CommandType
  pub t : ℕ

pub record Game (Db : Type 0) : Type 0 where
  pub db : Db
  pub command_queue : List Command
  pub move_start_time : ℕ
  pub finished : Bool
  pub player1 : Client
  pub player2 : Client
  pub card_number1 : ℕ
  pub card_number2 : ℕ
  pub union_of_cards : Hand
  pub cards1 : List ℕ
  pub cards2 : List ℕ
  pub wants_tie1 : Bool
  pub wants_tie2 : Bool
  pub current_move : CurrentMove
  pub first_move : CurrentMove
  -- How many numbers the generator has given.
  pub drawn : ℕ
  pub current_combination : List ℕ
  pub last_move : List ℕ

unfoldable pub negate_current_move : CurrentMove → CurrentMove
negate_current_move first_player_move = second_player_move
negate_current_move second_player_move = first_player_move

abbrev pub is_first : Seat → Bool
is_first first_player = true
is_first second_player = false

abbrev pub other : Seat → Seat
other first_player = second_player
other second_player = first_player

-- The seat that a move belongs to.
abbrev pub seat_of : CurrentMove → Seat
seat_of first_player_move = first_player
seat_of second_player_move = second_player

abbrev pub eq_ℤ : ℤ → ℤ → Bool
eq_ℤ (pos m) (pos n) = m == n
eq_ℤ (negsuc m) (negsuc n) = m == n
eq_ℤ _ _ = false

module _ {Db : Type 0} where
  abbrev pub client : Game Db → Seat → Client
  client g first_player = g.player1
  client g second_player = g.player2

  abbrev pub with_client : Game Db → Seat → Client → Game Db
  with_client g first_player c = record g { player1 = c }
  with_client g second_player c = record g { player2 = c }

  unfoldable pub get_currently_moving_player : Game Db → Seat
  get_currently_moving_player g = seat_of g.current_move

  unfoldable pub get_currently_not_moving_player : Game Db → Seat
  get_currently_not_moving_player g = other (seat_of g.current_move)

  unfoldable pub makes_current_move : Game Db → Seat → Bool
  unfolding get_currently_moving_player
  makes_current_move g s = eq_ℤ (client g (get_currently_moving_player g)).id (client g s).id

  unfoldable pub alternate_current_move : Game Db → Game Db
  unfolding negate_current_move
  alternate_current_move g = record g { current_move = negate_current_move g.current_move }

  unfoldable pub alternate_first_move : Game Db → Game Db
  unfolding negate_current_move
  alternate_first_move g = record g {
    first_move = negate_current_move g.first_move;
    current_move = negate_current_move g.first_move;
  }

  -- `max(MOVE_TIMEOUT - (now - move_start_time), 0.0)`; the difference of the times may be negative.
  unfoldable pub get_remaining_move_time : Game Db → ℕ → ℕ
  get_remaining_move_time g now = move_timeout + g.move_start_time - now

  abbrev pub enqueue : Game Db → Command → Game Db
  enqueue g c = record g { command_queue = g.command_queue ++ c ∷ [] }

  -- Each of the three pushes runs under the queue's mutex; `now` is the time that `Command` takes.
  unfoldable pub push_command : Game Db → Seat → List ℕ → ℕ → Game Db
  push_command g s text now =
      enqueue g
        (record { sender = s; cmd = text; move = g.current_move; kind = move_command; t = now })

  unfoldable pub push_reconnect : Game Db → Seat → ℕ → Game Db
  push_reconnect g s now =
      enqueue g (record { sender = s; cmd = []; move = g.current_move; kind = reconnect; t = now })

  unfoldable pub push_disconnect : Game Db → Seat → ℕ → Game Db
  push_disconnect g s now =
      enqueue g (record { sender = s; cmd = []; move = g.current_move; kind = disconnect; t = now })
