-- ===== src/Messenger/Invariant.antt =====
-- What holds of the messenger's maps and pointers in every state.
pub mod Defs
pub mod Topics
pub mod Register
pub mod Publish
pub mod Routing
