-- ===== src/Messenger/Contract.antt =====
-- What the messenger's handlers promise a client.
pub mod Topics
pub mod Nodes
pub mod Joins
pub mod Requests
pub mod Store
