-- ===== src/Cli.antt =====
-- The command line tool: internal/cli.
pub mod Spec
pub mod Sends
pub mod Operators
pub mod Keygen
pub mod Resharing
pub mod Keysign
pub mod Results
pub mod KeyShares
pub mod Data
pub mod Tests
pub mod Commands
