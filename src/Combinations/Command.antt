-- ===== src/Combinations/Command.antt =====
-- A bet as text: `parse_m_command` and `format_m_command` of CardBluffServer/combinations.cpp.
pub mod Parse
pub mod Format
pub mod Proper
pub mod Trip
