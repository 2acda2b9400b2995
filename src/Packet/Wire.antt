-- ===== src/Packet/Wire.antt =====
-- src/packet.rs: `Packet`, its three serialisers and `deserialize`.
use axsh.Prelude.{ℕ, Bool, Bytes, length, drop, is_empty, [], ◌∷◌, Option, none, some}
use axsh.Prelude.{leb, ◌==◌, if◌then◌else◌, Result, ok, err, ◌>>=◌, ◌>>◌, ensure, ok_or, map_err}
use axsh.Prelude.Words.{to_be_bytes}
use axsh.Crypto.{Crypto}
use axsh.ConnKey
use axsh.ConnKey.{ConnSign, ConnVerify, conn_signature_len}
use axsh.PacketKey
use axsh.PacketKey.{PacketSign, PacketVerify}
use axsh.Packet.Hello.{
  ServerHello, ClientHello, PacketError, encode_server_hello, decode_server_hello,
  encode_client_hello, decode_client_hello, empty_packet, request_trailing_bytes,
  missing_server_unique, missing_conn_verifier, missing_packet_verifier, conn_verification_failed,
  packet_verification_failed, signed_truncated, bad_signature_length, unknown_packet_type,
  not_client_hello, needs_conn_signer, needs_packet_signer, not_conn_signed, not_packet_signed,
  key_error, sign_error,
}

abbrev pub type_server_hello : ℕ
type_server_hello = 0

abbrev pub type_request_server_pubkey : ℕ
type_request_server_pubkey = 1

abbrev pub type_server_pubkey : ℕ
type_server_pubkey = 2

abbrev pub type_client_hello : ℕ
type_client_hello = 3

abbrev pub type_server_complete : ℕ
type_server_complete = 4

abbrev pub type_payload : ℕ
type_payload = 5

-- `ServerPubkey` and `ServerComplete` hold one field each.
pub data Packet : Type 0 where
  server_hello : ServerHello → Packet
  request_server_pubkey : Packet
  server_pubkey : Bytes → Packet
  client_hello : ClientHello → Packet
  server_complete : Bytes → Packet
  payload : Bytes → Packet

unfoldable pub serialize_unsigned : Packet → Result PacketError Bytes
serialize_unsigned (server_hello hello) = ok (type_server_hello ∷ encode_server_hello hello)
serialize_unsigned request_server_pubkey = ok (type_request_server_pubkey ∷ [])
serialize_unsigned (server_pubkey key) = ok (type_server_pubkey ∷ key)
serialize_unsigned (server_complete signature) = ok (type_server_complete ∷ signature)
serialize_unsigned (client_hello hello) = err needs_conn_signer
serialize_unsigned (payload data') = err needs_packet_signer

-- `data.first()`, `data.split_first()`
unfoldable pub peek_type : Bytes → Result PacketError ℕ
peek_type [] = err empty_packet
peek_type (packet_type ∷ rest) = ok packet_type

-- `signed_message(data, signature_len)`
unfoldable pub signed_message : Bytes → ℕ → Result PacketError Bytes
signed_message data' signature_len = do
  ensure (leb signature_len (length data')) signed_truncated
  ok (drop signature_len data')

-- `verify_packet_signed` with the verifier that it leaves.
abbrev pub returned : Option Bytes × PacketVerify → Result PacketError Packet × Option PacketVerify
returned (none, v) = (err packet_verification_failed, some v)
returned (some data', v) = (ok (payload data'), some v)

module _ (c : Crypto) where
  unfoldable pub serialize_conn_signed : Packet → ConnSign c → ℕ → Result PacketError Bytes
  serialize_conn_signed (client_hello hello) signer server_unique = do
    signed ←
        map_err key_error
          (ConnKey.sign_prefixed c signer (to_be_bytes 8 server_unique) (encode_client_hello hello))
    ok (type_client_hello ∷ signed)
  serialize_conn_signed p signer server_unique = err not_conn_signed

  -- With the signer that it leaves.
  unfoldable pub serialize_packet_signed :
      Packet → PacketSign c → Result PacketError Bytes × PacketSign c
  serialize_packet_signed (payload data') signer =
      let (signed, signer') = PacketKey.sign c signer data' in
      ((do s ← map_err sign_error signed; ok (type_payload ∷ s)), signer')
  serialize_packet_signed p signer = (err not_packet_signed, signer)

  unfoldable pub decode_server_complete : Bytes → Bool → Result PacketError Bytes
  decode_server_complete data' quantum_insecure = do
    ensure (length data' == conn_signature_len c quantum_insecure) bad_signature_length
    ok data'

  -- `verify_conn_signed`
  unfoldable pub verify_conn_signed : Bytes → ℕ → ConnVerify → Result PacketError Bytes
  verify_conn_signed data' server_unique verifier =
      ok_or (ConnKey.verify_prefixed c verifier (to_be_bytes 8 server_unique) data')
        conn_verification_failed

  unfoldable pub peek_client_hello : Bytes → Bool → Result PacketError ClientHello
  peek_client_hello [] quantum_insecure = err empty_packet
  peek_client_hello (packet_type ∷ rest) quantum_insecure = do
    ensure (packet_type == type_client_hello) (not_client_hello packet_type)
    body ← signed_message rest (conn_signature_len c quantum_insecure)
    decode_client_hello body

  -- The arm of `deserialize` for a `ClientHello`; `rest` is what follows the type byte.
  unfoldable pub deserialize_client_hello :
      Bytes → Option ℕ → Option ConnVerify → Bool → Result PacketError Packet
  unfolding peek_client_hello signed_message verify_conn_signed
  deserialize_client_hello rest server_unique conn_verifier quantum_insecure = do
    hello ← peek_client_hello (type_client_hello ∷ rest) quantum_insecure
    server_unique ← ok_or server_unique missing_server_unique
    verifier ← ok_or conn_verifier missing_conn_verifier
    message ← verify_conn_signed rest server_unique verifier
    ok (client_hello hello)

  -- The arm for a `Payload`: the only one that uses, and changes, the packet verifier.
  unfoldable pub deserialize_payload :
      ℕ → ℕ → Bytes → Option PacketVerify → Result PacketError Packet × Option PacketVerify
  deserialize_payload now later rest none = (err missing_packet_verifier, none)
  deserialize_payload now later rest (some verifier) =
      returned (PacketKey.verify c now later verifier rest)

  -- `deserialize`, with the packet verifier that it leaves; `now` and `later` are the clock of
  -- `PacketVerify::verify`.
  unfoldable pub deserialize :
      ℕ
      → ℕ
      → Bytes
      → Option ℕ
      → Option ConnVerify
      → Option PacketVerify
      → Bool
      → Result PacketError Packet × Option PacketVerify
  deserialize now later [] server_unique conn_verifier packet_verifier quantum_insecure =
      (err empty_packet, packet_verifier)
  deserialize now later (packet_type ∷ rest) server_unique conn_verifier packet_verifier
        quantum_insecure =
      if packet_type == type_server_hello
      then ((do hello ← decode_server_hello rest; ok (server_hello hello)), packet_verifier)
      else if packet_type == type_request_server_pubkey
      then (
        (do ensure (is_empty rest) request_trailing_bytes; ok request_server_pubkey),
        packet_verifier,
      )
      else if packet_type == type_server_pubkey
      then (ok (server_pubkey rest), packet_verifier)
      else if packet_type == type_client_hello
      then (
        deserialize_client_hello rest server_unique conn_verifier quantum_insecure,
        packet_verifier,
      )
      else if packet_type == type_server_complete
      then (
        (do s ← decode_server_complete rest quantum_insecure; ok (server_complete s)),
        packet_verifier,
      )
      else if packet_type == type_payload
      then deserialize_payload now later rest packet_verifier
      else (err (unknown_packet_type packet_type), packet_verifier)
