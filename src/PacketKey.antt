-- ===== src/PacketKey.antt =====
-- src/lib.rs: `PacketSign` and `PacketVerify`, the per-connection keys with their implicit counters.
pub mod Verify
pub mod Session
pub mod Delivery
mod Runs
use axsh.Prelude.{
  ℕ, ◌+◌, ◌-◌, ◌*◌, ◌%◌, ◌^◌, Bool, true, false, Bytes, length, take, drop, List, [], ◌∷◌, ◌++◌,
}
use axsh.Prelude.{ltb, ◌==◌, if◌then◌else◌, Option, none, some, Result, ok, err}
use axsh.Prelude.Words.{to_be_bytes}
use axsh.Crypto.{Crypto}
use axsh.Bundle.{ed25519_signature_len}

-- `packet_signature_input(counter, data)`
unfoldable pub packet_signature_input : ℕ → Bytes → Bytes
packet_signature_input counter data' = to_be_bytes 8 counter ++ data'

-- `MAX_CONNECTION_IDLE` in nanoseconds.
unfoldable pub max_connection_idle : ℕ
max_connection_idle = 3600 * 1_000_000_000

-- The failing `assert_eq!` on the length of a signature.
pub data SignError : Type 0 where
  wrong_signature_length : SignError

-- The times are nanoseconds on the monotonic clock of `std::time::Instant`.
pub record PacketVerify : Type 0 where
  pub last_success : ℕ
  pub public_key : Bytes
  pub verify_counter : ℕ

-- `PacketVerify::new`, at the time `now`.
unfoldable pub new_verify : ℕ → Bytes → PacketVerify
new_verify now public_key = record {
  last_success = now;
  public_key = public_key;
  verify_counter = 0;
}

module _ (c : Crypto) where
  open c use {Ed25519KeyPair, ed25519_sign, ed25519_public_key, ed25519_verify}

  pub record PacketSign : Type 0 where
    pub key_pair : Ed25519KeyPair
    pub sign_counter : ℕ

  -- `PacketSign::new`, where `generate` is the outcome of `Ed25519KeyPair::generate`.
  unfoldable pub new_sign : Option Ed25519KeyPair → Option PacketSign
  new_sign none = none
  new_sign (some key_pair) = some (record { key_pair = key_pair; sign_counter = 0 })

  unfoldable pub public_key_bytes : PacketSign → Bytes
  public_key_bytes s = ed25519_public_key s.key_pair

  -- `PacketSign::sign`, with the signer that it leaves. The counter is a `u64`.
  unfoldable pub sign : PacketSign → Bytes → Result SignError Bytes × PacketSign
  sign s data' =
      let counter = s.sign_counter in
      let input = packet_signature_input counter data' in
      let sig = ed25519_sign s.key_pair input in
      if length sig == ed25519_signature_len
      then (ok (sig ++ data'), record s { sign_counter = (counter + 1) % 2 ^ 64 })
      else (err wrong_signature_length, s)

  -- `PacketSign::verifier`
  unfoldable pub verifier : ℕ → PacketSign → PacketVerify
  unfolding public_key_bytes new_verify
  verifier now s = new_verify now (public_key_bytes s)

  -- `PacketVerify::verify`, with the verifier that it leaves. `now` is the time of the idle check and
  -- `later` the time read after a success. `elapsed` is 0 when the clock went back.
  unfoldable pub verify : ℕ → ℕ → PacketVerify → Bytes → Option Bytes × PacketVerify
  verify now later v data' =
      if ltb (length data') ed25519_signature_len
      then (none, v)
      else if ltb max_connection_idle (now - v.last_success)
      then (none, v)
      else let sig = take ed25519_signature_len data' in
        let msg = drop ed25519_signature_len data' in
        let counter = v.verify_counter in
        let input = packet_signature_input counter msg in
        if ed25519_verify v.public_key input sig
        then (some msg, record v { verify_counter = (counter + 1) % 2 ^ 64; last_success = later })
        else (none, v)
