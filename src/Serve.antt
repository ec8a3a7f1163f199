-- ===== src/Serve.antt =====
-- src/commands/serve/handlers.rs: what the server does for a client.
pub mod Put
pub mod PutChunked
pub mod Get
pub mod Splice
pub mod Caps
pub mod Jail
pub mod Session
