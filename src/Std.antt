-- ===== src/Std.antt =====
-- What the program uses of Go's standard library, where it has to be computed.
pub mod Sha256
pub mod Decimal
pub mod Strings
pub mod Utf8
