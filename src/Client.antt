-- ===== src/Client.antt =====
-- src/core/serve_client.rs and src/core/serve_client/: the client of a server process.
pub mod Hex
pub mod Ranges
pub mod Get
pub mod Handshake
pub mod Dedup
pub mod Put
pub mod Striped
