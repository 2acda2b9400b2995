-- ===== src/Packet/Hello.antt =====
-- src/packet.rs: the bodies of `ServerHello` and `ClientHello`.
use axsh.Prelude.{
  ℕ, ◌^◌, ◌<◌, ◌≡◌, Bytes, bytes_eq, length, take, drop, get_or, is_empty, ◌∷◌, ◌++◌,
}
use axsh.Prelude.{leb, ◌==◌, Result, ok, ◌>>=◌, ◌>>◌, ensure}
use axsh.Prelude.Words.{to_be_bytes, from_be_bytes}
use axsh.Base64.{codes}
use axsh.Bundle.{ed25519_public_key_len, sha256_digest_len}
use axsh.ConnKey.{KeyError}
use axsh.PacketKey.{SignError}

abbrev pub server_hello_magic : Bytes
server_hello_magic = codes "AXSH"

abbrev pub server_hello_version : ℕ
server_hello_version = 0

-- The messages of `anyhow!`, `bail!` and `ensure!`; `too_few_bytes` has the number wanted.
pub data PacketError : Type 0 where
  empty_packet request_trailing_bytes missing_server_unique missing_conn_verifier : PacketError
  missing_packet_verifier conn_verification_failed packet_verification_failed : PacketError
  signed_truncated bad_magic bad_version trailing_bytes bad_signature_length : PacketError
  too_few_bytes unknown_packet_type not_client_hello : ℕ → PacketError
  needs_conn_signer needs_packet_signer not_conn_signed not_packet_signed : PacketError
  key_error : KeyError → PacketError
  sign_error : SignError → PacketError

-- The two hellos have the same fields. A `[u8; 32]` is a list of 32 bytes.
pub record ServerHello : Type 0 where
  pub unique : ℕ
  pub conn_sign_public_key_sha256 : Bytes
  pub packet_sign_public_key : Bytes

pub record ClientHello : Type 0 where
  pub unique : ℕ
  pub conn_sign_public_key_sha256 : Bytes
  pub packet_sign_public_key : Bytes

-- What the Rust types of the fields say.
pub record IsServerHello (h : ServerHello) : Type 0 where
  pub unique_fits : h.unique < 2 ^ 64
  pub length_digest : length h.conn_sign_public_key_sha256 ≡ 32
  pub length_key : length h.packet_sign_public_key ≡ 32

pub record IsClientHello (h : ClientHello) : Type 0 where
  pub unique_fits : h.unique < 2 ^ 64
  pub length_digest : length h.conn_sign_public_key_sha256 ≡ 32
  pub length_key : length h.packet_sign_public_key ≡ 32

unfoldable pub take_u64 : Bytes → Result PacketError (ℕ × Bytes)
take_u64 data' = do
  ensure (leb 8 (length data')) (too_few_bytes 8)
  ok (from_be_bytes (take 8 data'), drop 8 data')

unfoldable pub take_fixed : ℕ → Bytes → Result PacketError (Bytes × Bytes)
take_fixed n data' = do
  ensure (leb n (length data')) (too_few_bytes n)
  ok (take n data', drop n data')

unfoldable pub encode_server_hello : ServerHello → Bytes
encode_server_hello hello =
    server_hello_magic
    ++ (server_hello_version
        ∷ (to_be_bytes 8 hello.unique
            ++ (hello.conn_sign_public_key_sha256 ++ hello.packet_sign_public_key)))

unfoldable pub decode_server_hello : Bytes → Result PacketError ServerHello
decode_server_hello data' = do
  (magic, rest) ← take_fixed (length server_hello_magic) data'
  ensure (bytes_eq magic server_hello_magic) bad_magic
  (version, rest1) ← take_fixed 1 rest
  ensure (get_or version 0 0 == server_hello_version) bad_version
  (unique, rest2) ← take_u64 rest1
  (conn_sign_public_key_sha256, rest3) ← take_fixed sha256_digest_len rest2
  (packet_sign_public_key, rest4) ← take_fixed ed25519_public_key_len rest3
  ensure (is_empty rest4) trailing_bytes
  ok (record {
    unique = unique;
    conn_sign_public_key_sha256 = conn_sign_public_key_sha256;
    packet_sign_public_key = packet_sign_public_key;
  })

unfoldable pub encode_client_hello : ClientHello → Bytes
encode_client_hello hello =
    to_be_bytes 8 hello.unique
    ++ (hello.conn_sign_public_key_sha256 ++ hello.packet_sign_public_key)

unfoldable pub decode_client_hello : Bytes → Result PacketError ClientHello
decode_client_hello data' = do
  (unique, rest) ← take_u64 data'
  (conn_sign_public_key_sha256, rest1) ← take_fixed sha256_digest_len rest
  (packet_sign_public_key, rest2) ← take_fixed ed25519_public_key_len rest1
  ensure (is_empty rest2) trailing_bytes
  ok (record {
    unique = unique;
    conn_sign_public_key_sha256 = conn_sign_public_key_sha256;
    packet_sign_public_key = packet_sign_public_key;
  })
