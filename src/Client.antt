-- ===== src/Client.antt =====
-- src/client.rs: the client's side of the handshake.
pub mod Run
pub mod Answers
pub mod Completed
mod Runs
