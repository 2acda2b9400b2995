-- ===== src/KeyStore.antt =====
-- src/bin/axsh.rs, src/bin/axshd.rs and src/bin/axsh-fingerprint.rs: their functions on key files.
pub mod Text
pub mod Load
pub mod Pieces
pub mod Loaded
pub mod Added
pub mod Errors
pub mod Fingerprint
pub mod Connect
pub mod Trust
mod Runs
