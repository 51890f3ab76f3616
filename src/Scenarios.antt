-- ===== src/Scenarios.antt =====
-- A table of the game of CardBluffServer/game.cpp with ten cards, and the theorems at that table.
mod Table
mod Hall
mod Sessions
mod Consoles
use card_bluff.Prelude.{
  ℕ, ◌+◌, ◌<◌, ◌≡◌, refl, inl, inr, Bool, true, false, if◌then◌else◌, List, [], ◌∷◌, none, length,
  codes, ok, fault, ◌>>=◌, arith,
}
use card_bluff.Prelude.Int.{pos}
use card_bluff.Client.{Client, in_game_state}
use card_bluff.Env.{Env}
use card_bluff.Combinations.Hand.{hand_of}
use card_bluff.Combinations.Spec.{IsDealt, described}
use card_bluff.Combinations.Build.{hand_of-described}
use card_bluff.Combinations.Tables
use card_bluff.Combinations.Check.{clever_asserts, check_combination}
use card_bluff.Combinations.Best.{find_best_combination, is_best_combination}
use card_bluff.Combinations.Bets.Ranking.{IsBest}
use card_bluff.Combinations.Command.Format.{format_m_command}
use card_bluff.Combinations.Bets.Blocked.{is_best_combination-two_pairs}
use card_bluff.Game.Deal.{generate_cards}
use card_bluff.Game.Dealt.{IsTable, SameRules, generate_cards-IsTable}
use card_bluff.Game.Starts.{fresh, start_round-deals}
use card_bluff.Game.Next.{Restarted, player_loses_round-deals}
use card_bluff.Combinations.Order.{less_combination, comparison_key, lexicographic}
use card_bluff.Combinations.Find.{find_best_full_house, find_best_straight, find_best_two_pairs}
use card_bluff.Combinations.Every.{
  Leads, find_every_full_house, find_every_straight, find_every_two_pairs, find_every-Leads,
}
use card_bluff.Combinations.Bets.{Bet, encode, IsProper, holds}
use card_bluff.Combinations.Bets.Optimal.{
  find_best_combination-contained, find_best_combination-unbeaten, check_combination-dealt,
}
use card_bluff.Combinations.Bets.Height.{bidding-ends}
use card_bluff.Combinations.Command.Parse.{
  parse_m_command, parse_kind, parse_ranks, parse_suit, parse_end, check_ranks,
}
use card_bluff.Combinations.Command.Proper.{IsAccepted, parse_m_command-IsAccepted}
use card_bluff.Combinations.Command.Trip.{Trips, parse_m_command-format_m_command}
use card_bluff.Game.State.{Game, first_player_move, second_player_move, first_player}
use card_bluff.Game.Round.{add_card_to, player_loses_round, start_round, tie_in_round}
use card_bluff.Game.Move.{reveal, bet, block}
use card_bluff.Game.Blocking.{block-judges, is_highest, tied_lines, failed_lines}
use card_bluff.Game.Heard.{heard}
use card_bluff.Game.Reveal.{reveal_lines, revealed, reveal-judges}
use card_bluff.Game.Bidding.{Answered, bet-raises}
use card_bluff.Game.Score.{Decided, extra_card-decides, extra_card-faults}
use card_bluff.Scenarios.Table.{quiet, table_cards, table_cards-IsDealt, table}

find_every-Leads_example :
    Leads
      (hand_of table_cards >>= find_every_full_house)
      (hand_of table_cards >>= find_best_full_house)
    × Leads
        (hand_of table_cards >>= find_every_straight)
        (hand_of table_cards >>= find_best_straight)
    × Leads
        (hand_of table_cards >>= find_every_two_pairs)
        (hand_of table_cards >>= find_best_two_pairs)
find_every-Leads_example = find_every-Leads table_cards table_cards-IsDealt

find_best_combination-unbeaten_example :
    (hand_of table_cards >>= find_best_combination >>= λ best.
    less_combination best (encode (Bet.pair 12)))
    ≡ ok false
find_best_combination-unbeaten_example =
    find_best_combination-unbeaten table_cards table_cards-IsDealt (Bet.pair 12) (omega arith) refl

find_best_combination-contained_example :
    (b : Bet) × ((hand_of table_cards >>= find_best_combination) ≡ ok (encode b))
    × IsProper b
    × (holds table_cards b ≡ true)
    × ((hand_of table_cards >>= λ h. check_combination h (encode b)) ≡ ok true)
find_best_combination-contained_example =
    find_best_combination-contained table_cards table_cards-IsDealt

check_combination-dealt_example :
    (hand_of table_cards >>= λ h. check_combination h (encode (Bet.straight 3))) ≡ ok true
check_combination-dealt_example =
    check_combination-dealt table_cards table_cards-IsDealt (Bet.straight 3)
      (omega arith, omega arith)

reveal-judges_example :
    reveal quiet (table 5 5) first_player (codes "/r") 7
    ≡ player_loses_round quiet
        (heard (table 5 5) (
          reveal_lines quiet
            (table 5 5)
            first_player
            (codes "/r")
            (holds table_cards (Bet.pair 12))))
        (revealed quiet first_player_move (holds table_cards (Bet.pair 12)))
        7
reveal-judges_example =
    reveal-judges quiet (table 5 5) first_player (codes "/r") 7 table_cards (Bet.pair 12) refl refl
      (omega arith) (omega arith)

bet-raises_example :
    Answered
      (table 5 5)
      first_player
      (codes "/m3a")
      7
      (bet (table 5 5) first_player (codes "/m3a") 7)
bet-raises_example = bet-raises (table 5 5) first_player (codes "/m3a") 7 (Bet.pair 12) refl

extra_card-decides_example : Decided first_player_move 11 10
unfolding add_card_to
extra_card-decides_example =
    extra_card-decides quiet (table 10 10) first_player_move
      (
        omega arith,
        omega arith,
        omega arith,
        omega arith,
        omega arith,
        inr (omega arith, omega arith),
      )
      (omega arith)

parse_m_command-format_m_command_example : Trips (Bet.flush 8 2)
parse_m_command-format_m_command_example =
    parse_m_command-format_m_command (Bet.flush 8 2) (omega arith, omega arith, omega arith)

parse_m_command-IsAccepted_example : (b : Bet) × (3 ∷ 2 ∷ 12 ∷ [] ≡ encode b) × IsAccepted b
unfolding parse_m_command parse_kind parse_ranks parse_suit parse_end check_ranks Tables.find
parse_m_command-IsAccepted_example = parse_m_command-IsAccepted (codes "2a4") refl

bidding-ends_example : length (Bet.pair 12 ∷ Bet.set 0 ∷ Bet.flush 9 1 ∷ Bet.flush 5 0 ∷ []) < 1690
unfolding less_combination clever_asserts comparison_key lexicographic
bidding-ends_example = bidding-ends (Bet.pair 12 ∷ Bet.set 0 ∷ Bet.flush 9 1 ∷ Bet.flush 5 0 ∷ []) (
  omega arith,
  refl,
  (
    omega arith,
    refl,
    (
      (omega arith, omega arith, omega arith),
      refl,
      ((omega arith, omega arith, omega arith), refl, tt),
    ),
  ),
)

hand_of-described_example : hand_of table_cards ≡ ok (described table_cards)
hand_of-described_example = hand_of-described table_cards table_cards-IsDealt

extra_card-faults_example : player_loses_round quiet (table 26 25) first_player_move 7 ≡ fault
extra_card-faults_example =
    extra_card-faults quiet (table 26 25) first_player_move 7
      (
        omega arith,
        omega arith,
        omega arith,
        omega arith,
        omega arith,
        inr (omega arith, omega arith),
      )
      refl

table-IsTable : IsTable (table 5 5)
table-IsTable = (table_cards-IsDealt, refl, refl, refl)

player_loses_round-deals_example :
    Restarted quiet
      (add_card_to (table 5 5) first_player_move)
      (player_loses_round quiet (table 5 5) first_player_move 7)
unfolding add_card_to
player_loses_round-deals_example =
    player_loses_round-deals quiet (table 5 5) first_player_move 7 table-IsTable
      (
        omega arith,
        omega arith,
        omega arith,
        omega arith,
        omega arith,
        inl (omega arith, omega arith),
      )
      (omega arith)
      (
        omega arith,
        omega arith,
        omega arith,
        omega arith,
        omega arith,
        inl (omega arith, omega arith),
      )

start_round-deals_example :
    (h : Game Unit) × (start_round quiet (table 7 6) 7 ≡ ok h)
    × IsTable h
    × SameRules (fresh (table 7 6)) h
start_round-deals_example = start_round-deals quiet (table 7 6) 7 (omega arith)

generate_cards-IsTable_example :
    (h : Game Unit) × (generate_cards (λ n. n) (table 7 6) ≡ ok h)
    × IsTable h
    × SameRules (table 7 6) h
generate_cards-IsTable_example = generate_cards-IsTable (λ n. n) (table 7 6) (omega arith)

is_best_combination-two_pairs_example :
    (hand_of (51 ∷ 50 ∷ 0 ∷ 1 ∷ []) >>= λ h. is_best_combination h (encode (Bet.two_pairs 0 12)))
    ≡ ok false
is_best_combination-two_pairs_example =
    is_best_combination-two_pairs (51 ∷ 50 ∷ 0 ∷ 1 ∷ []) 0 12
      (omega arith, refl, (omega arith, refl, (omega arith, refl, (omega arith, refl, tt))))
      (omega arith) (omega arith)

block-judges_example :
    (best : Bet) × (shown : List ℕ) × IsBest table_cards best
    × (format_m_command (encode best) ≡ ok shown)
    × (block quiet (table 5 5) first_player (codes "/b") 7 ≡ (
        if is_highest table_cards best (Bet.pair 12)
        then tie_in_round quiet
            (heard (table 5 5) (tied_lines quiet (table 5 5) first_player (codes "/b")))
            7
        else player_loses_round quiet
            (heard (table 5 5) (
              failed_lines quiet
                (table 5 5)
                first_player
                (codes "/b")
                (holds table_cards (Bet.pair 12))
                shown))
            (table 5 5).current_move
            7))
block-judges_example =
    block-judges quiet (table 5 5) first_player (codes "/b") 7 48
      (49 ∷ 44 ∷ 0 ∷ 5 ∷ 10 ∷ 15 ∷ 20 ∷ 25 ∷ 50 ∷ []) (Bet.pair 12) refl refl (omega arith)
      (omega arith) (omega arith)
