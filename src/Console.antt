-- ===== src/Console.antt =====
-- The console client of CardBluffClient: how it logs in, and how it shows what the server sends.
pub mod Scan
pub mod Login
pub mod Joined
pub mod Highlight
pub mod Editor
pub mod Cards
pub mod Dealt
pub mod Shown
