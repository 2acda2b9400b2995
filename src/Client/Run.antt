-- ===== src/Client/Run.antt =====
-- src/client.rs: `ClientStream` and `new_with_server_pubkey_lookup_inner`.
use axsh.Prelude.{
  ℕ, Bytes, bytes_eq, List, ◌++◌, Option, none, some, Result, ok, err, ok_or, map_err,
}
use axsh.Crypto.{Crypto}
use axsh.Hdlc.{encode}
use axsh.Handshake.{
  HandshakeError, packet, no_key_pair, unexpected_packet, digest_mismatch, bad_transcript,
  Handshake, ◌>>=◌, ◌>>◌, lift, check, return, send, receive,
}
use axsh.ConnKey
use axsh.ConnKey.{ConnSign, ConnVerify, verify_detached}
use axsh.PacketKey
use axsh.PacketKey.{PacketSign}
use axsh.Packet.Hello.{ServerHello, ClientHello}
use axsh.Packet.Wire.{
  Packet, server_hello, request_server_pubkey, server_pubkey, client_hello, server_complete,
  serialize_unsigned, serialize_conn_signed, deserialize,
}
use axsh.Transport.{Accepting, PayloadStream, new_stream}

pub record ClientStream (c : Crypto) : Type 0 where
  pub server_hello : ServerHello
  pub transport : PayloadStream c

-- The `let ... else` and the `match` on the packets of the server.
abbrev pub as_server_hello : Packet → Result HandshakeError ServerHello
as_server_hello (server_hello hello) = ok hello
as_server_hello p = err unexpected_packet

abbrev pub as_server_pubkey : Packet → Result HandshakeError Bytes
as_server_pubkey (server_pubkey key) = ok key
as_server_pubkey p = err unexpected_packet

abbrev pub as_server_complete : Packet → Result HandshakeError Bytes
as_server_complete (server_complete signature) = ok signature
as_server_complete p = err unexpected_packet

-- The callbacks `lookup_server_pubkey` and `accept_server_pubkey` are functions to what they return.
module _ (c : Crypto) (conn_sign : ConnSign c)
    (lookup_server_pubkey : ServerHello → Result HandshakeError (Option Bytes))
    (accept_server_pubkey : ServerHello → Bytes → Result HandshakeError (Unit {0})) where
  -- `Packet::deserialize` without verifiers: the clock is not read.
  abbrev pub parse : Bytes → Result HandshakeError Packet
  parse wire = map_err packet (deserialize c 0 0 wire none none none conn_sign.quantum_insecure).0

  -- The public key from the cache, or else from the server.
  abbrev pub found_or_asked : Option Bytes → Handshake Bytes
  found_or_asked (some public_key) = return public_key
  found_or_asked none = do
    request ← lift (map_err packet (serialize_unsigned request_server_pubkey))
    send (encode request)
    wire ← receive
    p ← lift (parse wire)
    lift (as_server_pubkey p)

  -- `ConnVerify::new`, with the mode of the client's own key.
  abbrev pub server_verifier : Bytes → ConnVerify
  server_verifier key = record (ConnKey.new_verify key) {
    quantum_insecure = conn_sign.quantum_insecure;
  }

  abbrev pub own_hello : ℕ → PacketSign c → ClientHello
  own_hello unique packet_sign = record {
    unique = unique;
    conn_sign_public_key_sha256 = c.sha256 (ConnKey.public_key_bytes c conn_sign);
    packet_sign_public_key = PacketKey.public_key_bytes c packet_sign;
  }

  -- `PayloadStream::new` on the stream as the handshake leaves it; `accepting` is what its later
  -- writes will take, and `now` the time of `PacketVerify::new`.
  abbrev pub established :
      List Accepting → ℕ → PacketSign c → ServerHello → Handshake (ClientStream c)
  established accepting now packet_sign hello channel =
      return
        (record {
          server_hello = hello;
          transport =
              new_stream c
                (record { incoming = channel.incoming; accepting = accepting; sent = channel.sent })
                packet_sign (PacketKey.new_verify now hello.packet_sign_public_key);
        })
        channel

  -- Everything behind the acceptance of the server's key: the client's hello and the server's answer.
  unfoldable pub exchange :
      Option c.Ed25519KeyPair
      → Result HandshakeError ℕ
      → ℕ
      → List Accepting
      → Bytes
      → ServerHello
      → Bytes
      → Handshake (ClientStream c)
  exchange generated random now accepting server_hello_wire hello public_key = do
    packet_sign ← lift (ok_or (PacketKey.new_sign c generated) no_key_pair)
    unique ← lift random
    client_hello_wire ← lift (
        map_err packet (
          serialize_conn_signed c (client_hello (own_hello unique packet_sign)) conn_sign
            hello.unique))
    send (encode client_hello_wire)
    wire ← receive
    p ← lift (parse wire)
    signature ← lift (as_server_complete p)
    check
        (verify_detached c (server_verifier public_key) signature
          (server_hello_wire ++ client_hello_wire))
        bad_transcript
    established accepting now packet_sign hello

  -- The whole handshake. `generated` is the outcome of the key generation in
  -- `PacketSign::new`, and `random` that of `random_u64`.
  unfoldable pub new_with_server_pubkey_lookup_inner :
      Option c.Ed25519KeyPair
      → Result HandshakeError ℕ
      → ℕ
      → List Accepting
      → Handshake (ClientStream c)
  new_with_server_pubkey_lookup_inner generated random now accepting = do
    server_hello_wire ← receive
    p ← lift (parse server_hello_wire)
    hello ← lift (as_server_hello p)
    found ← lift (lookup_server_pubkey hello)
    public_key ← found_or_asked found
    check (bytes_eq hello.conn_sign_public_key_sha256 (c.sha256 public_key)) digest_mismatch
    lift (accept_server_pubkey hello public_key)
    exchange generated random now accepting server_hello_wire hello public_key
