-- ===== src/Go.antt =====
-- The functions of Go's standard library that the program calls, written out.
pub mod Strconv
pub mod Hex
pub mod Base64
pub mod Strings
