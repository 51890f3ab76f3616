-- ===== src/Lib.antt =====
-- CardBluff: the rules of a duel, the sessions of the server, and the console client, checked.
--
-- The program is a server for a game of cards and bluff. Two players are dealt cards from a pack of
-- 52. In each round they bid combinations (pairs, straights, flushes and so on) that the cards of both
-- may contain, each bid above the one before it. A player can reveal the cards ("/r") or claim that the
-- standing bid is the best combination ("/b"). Who loses a round gets a card more; the game ends when
-- the numbers of cards are too far apart. Before that, a client connects, gives its nickname, registers
-- or answers with the hash of its password and a salt, and looks for a duel; the server pairs two that do.
--
-- The parts, and where they are modelled (paths from the root of the repository):
--
--   CardBluffServer/combinations.h, combinations.cpp: `Combinations` and its children. `Hand` is the record
--     of the four tables of the class Hand; `Hand.hand_of` is its constructor, `Check` has the checks
--     `check_*`, `Find` the searches `find_best_*`, `Every` the searches `find_every_*`,
--     `Best` has `find_best_combination` and `is_best_combination`, `Order` has `less_combination`,
--     `Command.Parse` and `Command.Format` have `parse_m_command` and `format_m_command`. The numbers
--     of `combination_t`, `rank_t` and `suit_t` are in `Kind` and `Rank`, and the constant tables in
--     `Tables`.
--   CardBluffServer/game.h, game.cpp: `Game` and its children. `State` has the records Game and Command
--     and whose move it is, `Say` the texts for the players, `Heard` the
--     same said without those functions, `Deal` shuffling and dealing, `Round` the
--     rounds, the result and the end of a game, `Move` the commands of `make_move`, `Process` the loop's
--     body `process` with the clock.
--   CardBluffServer/client.h, client.cpp, util/strlcpy.cpp: `Client`, the fields of a client and its
--     methods, and `Client.Sending`, the queue of its texts.
--   CardBluffServer/database.cpp, ratings.cpp: `Database`, the ratings as SQL texts, `Database.Clients`,
--     nicknames, passwords and the best players, and `Ratings`, the Elo update after a game.
--   CardBluffServer/main.cpp, util/unordered_set_mt.h: `Session` and its children. A `Session` is a client
--     with the local variables of its thread `client_to_server`; `Session.Login` has the states up to the
--     authorization, `Session.Lobby` those after it, `Session.Server` the set of clients, `find_opponent`,
--     lost connections and reconnections, and `Session.Steps` the turns of the threads.
--   CardBluffServer/util/util.cpp: `Text`.
--   CardBluffClient/main.cpp, text_io.cpp: `Console` and its children: `Console.Login` what the client does
--     with a message and with a line, `Console.Scan` how it reads a salt, `Console.Editor` the line editor,
--     `Console.Highlight`, `Console.Cards` and `Console.Shown` how a message is shown.
--
-- The game and the sessions meet at the calls that a session makes of a game (`GameCall`), which the
-- model records in their order, and at the end of a game, which is a step of the server. The client and
-- the server meet in `Console.Joined` (the login), `Console.Dealt` and `Console.Shown` (the messages).
--
-- How the code is modelled. A call returns `ok`, or is `fault` where it fails an assert or indexes a
-- vector out of range. Where the code returns -1 for nothing, the model has `none`. A state is passed
-- from one step to the next. In `Session.Steps` the threads take turns, in any order: the handling of a
-- message, a search for opponents and the end of a game are one turn each. In the source each setter of a
-- client has its own mutex, and another thread may run between two of them; `Session.Races` models that
-- for "/findduel", and for the rest it is not modelled. A `long long` is an integer, and `Ratings` has a
-- fault where it does not fit into 64 bits. The ids and ratings that SQLite gives, and the numbers of cards,
-- are taken to fit. Texts are lists of character
-- codes. SQLite, the arithmetic of double, `towlower` and the random generator are the fields of the
-- record `Env`, the UTF-8 converter, SHA-256 and the salts those of the record `Crypto`, and nothing is
-- assumed of them. The clock is an argument, in microseconds. `sprintf` and `wcscpy` into an array of a
-- fixed size are `fault` where the text does not fit.
--
-- Bounds and fuel. The loops over suits, ranks and the rows of a table are recursions on the rounds
-- that are left, which the model takes from the sizes in the code. `digits` has fuel equal to the number
-- it prints, which is at least the number of its digits.
--
-- What a combination is, apart from the code, is in `Combinations.Bets`: the type `Bet`, its encoding as
-- the vector of the code, which bets exist (`IsProper`), and when cards contain one (`holds`).
-- `Combinations.Spec` says what the tables of a hand mean.
--
-- Not modelled: the web client, which is in another language; the start of the programs, threads, sockets
-- and events, the windows of curses with their scrolling and resizing, and the log, which are calls of the
-- system; the functions `find_every_straight_flush` and `find_every_flush`,
-- that nothing calls; and the copies of PDCurses, SQLite, SHA-256 and date.h.
mod Prelude
pub mod Combinations
pub mod Text
pub mod Client
pub mod Env
pub mod Database
pub mod Ratings
pub mod Session
pub mod Console
pub mod Game
mod Scenarios
