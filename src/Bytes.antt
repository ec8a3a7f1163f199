-- ===== src/Bytes.antt =====
-- What the sources use of Rust's fixed-width integers, arrays and strings: `to_le_bytes`,
-- `from_le_bytes`, `i64` and `String::from_utf8`. A byte is a number below 256.
pub mod Word
pub mod Int
pub mod Utf8
pub mod Equal
pub mod Digest
pub mod Write
pub mod Read
