-- ===== src/Game.antt =====
-- The class `Game` of CardBluffServer/game.h and game.cpp: one duel, from its first deal to its end.
pub mod State
pub mod Say
pub mod Deal
pub mod Round
pub mod Move
pub mod Process
pub mod Heard
pub mod Reveal
pub mod Bidding
pub mod Score
pub mod Shuffling
pub mod Dealt
pub mod Printed
pub mod Starts
pub mod Next
pub mod Blocking
