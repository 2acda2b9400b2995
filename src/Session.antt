-- ===== src/Session.antt =====
-- src/client.rs and src/server.rs together: the two handshakes of one connection.
pub mod Agreement
pub mod Payloads
pub mod Answers
pub mod HonestServer
pub mod HonestClient
pub mod Waiting
pub mod Rounds
pub mod Exchanged
pub mod Honest
mod Sample
mod Runs
mod HonestRuns
