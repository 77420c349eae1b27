-- ===== src/Service/Tests.antt =====
-- Concrete libraries that satisfy what is assumed of net/http, gin and encoding/json, and runs of the
-- service.
pub mod Matching
pub mod Texts
pub mod Runs
