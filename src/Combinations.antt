-- ===== src/Combinations.antt =====
-- Poker combinations in the union of two hands: CardBluffServer/combinations.h and combinations.cpp.
pub mod Kind
pub mod Rank
pub mod Tables
pub mod Hand
pub mod Check
pub mod Spec
pub mod Build
pub mod Bets
pub mod Find
pub mod Every
pub mod Best
pub mod Order
pub mod Command
