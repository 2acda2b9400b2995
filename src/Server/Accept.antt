-- ===== src/Server/Accept.antt =====
-- src/server.rs: what `new_inner` does with one packet of the client.
use axsh.Prelude.{ℕ, Bytes, Option, none, some, Result, ok, err, ◌>>=◌, ok_or, map_err}
use axsh.Crypto.{Crypto}
use axsh.Hdlc.{encode}
use axsh.Handshake.{HandshakeError, packet, not_authorized, unreachable}
use axsh.ConnKey
use axsh.ConnKey.{ConnSign}
use axsh.Packet.Hello.{ClientHello}
use axsh.Packet.Wire.{
  Packet, request_server_pubkey, server_pubkey, client_hello, serialize_unsigned, peek_client_hello,
  deserialize,
}

abbrev pub as_request : Packet → Result HandshakeError (Unit {0})
as_request request_server_pubkey = ok tt
as_request p = err unreachable

abbrev pub as_client_hello : Packet → Result HandshakeError ClientHello
as_client_hello (client_hello hello) = ok hello
as_client_hello p = err unreachable

-- `authorized_keys` is the map from digests to public key bundles.
module _ (c : Crypto) (conn_sign : ConnSign c) (authorized_keys : Bytes → Option Bytes) where
  -- The frame that answers a `RequestServerPubkey`. No packet verifier is at hand, so that the clock
  -- of `deserialize` is not read.
  unfoldable pub request_reply : Bytes → Result HandshakeError Bytes
  request_reply wire = do
    p ← map_err packet (deserialize c 0 0 wire none none none conn_sign.quantum_insecure).0
    u ← as_request p
    reply ←
        map_err packet (serialize_unsigned (server_pubkey (ConnKey.public_key_bytes c conn_sign)))
    ok (encode reply)

  -- The arm for a `ClientHello`, with the server's nonce.
  unfoldable pub accept_client_hello : ℕ → Bytes → Result HandshakeError ClientHello
  accept_client_hello unique wire = do
    peeked ← map_err packet (peek_client_hello c wire conn_sign.quantum_insecure)
    key ← ok_or (authorized_keys peeked.conn_sign_public_key_sha256) not_authorized
    p ←
        map_err packet
          (deserialize c 0 0 wire (some unique) (some (ConnKey.peer_verifier c conn_sign key)) none
            conn_sign.quantum_insecure).0
    as_client_hello p
