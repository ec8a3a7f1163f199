-- ===== src/Protocol.antt =====
-- src/core/protocol.rs: the wire messages, their encoding, and their transport over a byte stream.

pub mod Tag
pub mod Message
pub mod Writer
pub mod Reader
pub mod Codec
pub mod Stream
