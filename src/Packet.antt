-- ===== src/Packet.antt =====
-- src/packet.rs: the packets of the protocol and their wire format.
pub mod Hello
pub mod Wire
pub mod RoundTrip
pub mod Inverse
pub mod Unsigned
pub mod Signed
pub mod Verifier
pub mod Complete
pub mod Lengths
mod Runs
