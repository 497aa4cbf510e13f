-- ===== src/Std.antt =====
-- What the program uses of Go's standard library: big-endian words, decimal numbers, base64.
pub mod Words
pub mod Decimal
pub mod Base64
