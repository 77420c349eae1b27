-- ===== src/Messenger.antt =====
-- internal/messenger, the service: its state, its HTTP handlers and its two workers.
pub mod State
pub mod Publish
pub mod Topics
pub mod Register
pub mod Incoming
pub mod Outgoing
pub mod Invariant
pub mod System
pub mod Contract
pub mod Tests
