-- ===== src/Server/Run.antt =====
-- src/server.rs: `ServerStream` and `new_inner`, the whole handshake of the server.
use axsh.Prelude.{
  List, ℕ, zero, suc, Bytes, length, ◌++◌, Option, none, ◌==◌, if◌then◌else◌, Result, err, ok_or,
  map_err,
}
use axsh.Crypto.{Crypto}
use axsh.Hdlc.{encode}
use axsh.Handshake.{
  HandshakeError, packet, key, unexpected_type, no_key_pair, Handshake, ◌>>=◌, ◌>>◌, lift, return,
  send, receive,
}
use axsh.ConnKey
use axsh.ConnKey.{ConnSign, sign_detached}
use axsh.PacketKey
use axsh.PacketKey.{PacketSign, PacketVerify}
use axsh.Packet.Hello.{ServerHello, ClientHello}
use axsh.Packet.Wire.{
  server_hello, server_complete, type_request_server_pubkey, type_client_hello, serialize_unsigned,
  peek_type,
}
use axsh.Server.Accept.{request_reply, accept_client_hello}
use axsh.Transport.{Accepting, PayloadStream, new_stream}

pub record ServerStream (c : Crypto) : Type 0 where
  pub client_hello : ClientHello
  pub transport : PayloadStream c

module _ (c : Crypto) (conn_sign : ConnSign c) (authorized_keys : Bytes → Option Bytes) where
  -- The `match` on the type of a packet; `next` is the next turn of the loop.
  unfoldable pub on_packet :
      ℕ → Handshake (Bytes × ClientHello) → Bytes → ℕ → Handshake (Bytes × ClientHello)
  on_packet unique next wire packet_type =
      if packet_type == type_request_server_pubkey
      then (do frame ← lift (request_reply c conn_sign authorized_keys wire); send frame; next)
      else if packet_type == type_client_hello
      then (do
        hello ← lift (accept_client_hello c conn_sign authorized_keys unique wire)
        return (wire, hello))
      else lift (err (unexpected_type packet_type))

  -- The loop that ends with the wire bytes and the hello of the client, for at most `fuel` turns.
  unfoldable pub hello_loop : ℕ → ℕ → Handshake (Bytes × ClientHello)
  hello_loop unique zero channel = none
  hello_loop unique (suc fuel) channel =
      (do
        wire ← receive
        packet_type ← lift (map_err packet (peek_type wire))
        on_packet unique (hello_loop unique fuel) wire packet_type)
        channel

  -- A turn that is not the last consumes a frame, so one turn more than there is input is enough.
  unfoldable pub client_hello_received : ℕ → Handshake (Bytes × ClientHello)
  client_hello_received unique channel = hello_loop unique (suc (length channel.incoming)) channel

  abbrev pub own_hello : ℕ → PacketSign c → ServerHello
  own_hello unique packet_sign = record {
    unique = unique;
    conn_sign_public_key_sha256 = c.sha256 (ConnKey.public_key_bytes c conn_sign);
    packet_sign_public_key = PacketKey.public_key_bytes c packet_sign;
  }

  -- `PayloadStream::new` on the stream as the handshake leaves it; `accepting` is what its later
  -- writes will take, and `now` the time of `PacketVerify::new`.
  abbrev pub established :
      List Accepting → ℕ → PacketSign c → ClientHello → Handshake (ServerStream c)
  established accepting now packet_sign hello channel =
      return
        (record {
          client_hello = hello;
          transport =
              new_stream c
                (record { incoming = channel.incoming; accepting = accepting; sent = channel.sent })
                packet_sign (PacketKey.new_verify now hello.packet_sign_public_key);
        })
        channel

  -- `generated` is the outcome of the key generation in `PacketSign::new`, and `random` that of
  -- `random_u64`.
  unfoldable pub new_inner :
      Option c.Ed25519KeyPair
      → Result HandshakeError ℕ
      → ℕ
      → List Accepting
      → Handshake (ServerStream c)
  new_inner generated random now accepting = do
    packet_sign ← lift (ok_or (PacketKey.new_sign c generated) no_key_pair)
    unique ← lift random
    server_hello_wire ←
        lift (map_err packet (serialize_unsigned (server_hello (own_hello unique packet_sign))))
    send (encode server_hello_wire)
    (client_hello_wire, hello) ← client_hello_received unique
    signature ←
        lift (map_err key (sign_detached c conn_sign (server_hello_wire ++ client_hello_wire)))
    wire ← lift (map_err packet (serialize_unsigned (server_complete signature)))
    send (encode wire)
    established accepting now packet_sign hello
