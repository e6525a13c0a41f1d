-- ===== src/Tools.antt =====
-- tools: the programs around the library.
pub mod Replay
