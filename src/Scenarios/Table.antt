-- ===== src/Scenarios/Table.antt =====
-- A table of the game of CardBluffServer/game.cpp with ten cards.
use card_bluff.Prelude.{ℕ, ◌+◌, refl, true, false, List, [], ◌∷◌, none, codes, arith}
use card_bluff.Prelude.Int.{pos}
use card_bluff.Client.{Client, in_game_state}
use card_bluff.Env.{Env}
use card_bluff.Combinations.Spec.{IsDealt, described}
use card_bluff.Combinations.Bets.{Bet, encode}
use card_bluff.Game.State.{Game, first_player_move, second_player_move}

-- Nothing happens in this database, and every rating is the same.
abbrev pub quiet : Env
quiet = record {
  Db = Unit;
  exec = λ db cmd. record { db = db; rows = []; code = 0 };
  Double = ℕ;
  of_ll = λ a. 0;
  to_ll = λ d. pos d;
  half = 0;
  add = λ a b. a + b;
  mul = λ a b. a;
  div = λ a b. a;
  pow = λ a b. a;
  towlower = λ c. c;
  gnr = λ n. n;
}

-- Three aces, a king, and six other ranks.
abbrev pub table_cards : List ℕ
table_cards = 48 ∷ 49 ∷ 44 ∷ 0 ∷ 5 ∷ 10 ∷ 15 ∷ 20 ∷ 25 ∷ 50 ∷ []

pub table_cards-IsDealt : IsDealt table_cards
table_cards-IsDealt = (
  omega arith,
  refl,
  (
    omega arith,
    refl,
    (
      omega arith,
      refl,
      (
        omega arith,
        refl,
        (
          omega arith,
          refl,
          (
            omega arith,
            refl,
            (omega arith, refl, (omega arith, refl, (omega arith, refl, (omega arith, refl, tt)))),
          ),
        ),
      ),
    ),
  ),
)

abbrev player : List ℕ → ℕ → Client
player nick n = record {
  nickname = nick;
  id = pos n;
  state = in_game_state;
  game = none;
  opponent = none;
  waiting_reconnect = false;
  finding_duel = false;
  in_game = true;
  authorized = true;
  send_queue = [];
}

-- The table where the players have a and b cards and the current bet is a pair of aces.
abbrev pub table : ℕ → ℕ → Game Unit
table a b = record {
  db = tt;
  command_queue = [];
  move_start_time = 0;
  finished = false;
  player1 = player (codes "ann") 1;
  player2 = player (codes "bob") 2;
  card_number1 = a;
  card_number2 = b;
  union_of_cards = described table_cards;
  cards1 = 48 ∷ 49 ∷ 44 ∷ 0 ∷ 5 ∷ [];
  cards2 = 10 ∷ 15 ∷ 20 ∷ 25 ∷ 50 ∷ [];
  wants_tie1 = false;
  wants_tie2 = false;
  current_move = first_player_move;
  first_move = second_player_move;
  drawn = 53;
  current_combination = encode (Bet.pair 12);
  last_move = codes "/m 1a";
}
