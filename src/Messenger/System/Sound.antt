-- ===== src/Messenger/System/Sound.antt =====
-- Soundness of the messenger at work.
pub mod Defs
pub mod Moves
pub mod Steps
