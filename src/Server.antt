-- ===== src/Server.antt =====
-- src/server.rs: the server's side of the handshake.
pub mod Accept
pub mod Run
pub mod Authentic
pub mod Completed
pub mod Total
mod Runs
