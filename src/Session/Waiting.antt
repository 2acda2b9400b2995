-- ===== src/Session/Waiting.antt =====
-- src/client.rs and src/server.rs: how far a client and a server come that have not got all of what
-- the other side will send.
use axsh.Prelude.{
  ℕ, zero, suc, ◌≤◌, ◌≡◌, refl, sym, ap, ◌∙◌, Bool, true, false, Bytes, bytes_eq, bytes_eq_refl,
  length, List, [], ◌++◌, arith, Option, none, some, Result, ok, err,
}
use axsh.Crypto.{Crypto}
use axsh.Hdlc.{encode}
use axsh.Hdlc.RoundTrip.{length-encode}
use axsh.Hdlc.Reader.{incoming, unexpected_eof, read_frame_async, drive, poll_read_frame, poll_loop}
use axsh.Handshake.{HandshakeError, reading, receive}
use axsh.Handshake.Forward.{open_channel, receive-encode}
use axsh.ConnKey.{ConnSign, public_key_bytes}
use axsh.PacketKey
use axsh.Packet.Hello.{ServerHello, ClientHello}
use axsh.Packet.Wire.{server_hello, serialize_unsigned}
use axsh.Transport.{Accepting}
use axsh.Client.Run.{exchange, new_with_server_pubkey_lookup_inner}
use axsh.Server
use axsh.Server.Run.{hello_loop, client_hello_received, new_inner}
use axsh.Session.HonestServer
use axsh.Session.HonestServer.{request_wire, asks, answers, request_turn, length-incoming}
use axsh.Session.HonestClient
use axsh.Session.HonestClient.{server_key, replies, known, own, asked}

-- Where the input has ended.
abbrev pub no_more : HandshakeError
no_more = reading unexpected_eof

pub receive-no_more :
    (sent : Bytes) → receive (open_channel [] sent) ≡ some (err no_more, open_channel [] sent)
unfolding receive read_frame_async drive poll_read_frame poll_loop
receive-no_more sent = refl

module _ (c : Crypto) (client_sign server_sign : ConnSign c)
    (authorized_keys : Bytes → Option Bytes)
    (mode : server_sign.quantum_insecure ≡ client_sign.quantum_insecure)
    (lookup_server_pubkey : ServerHello → Result HandshakeError (Option Bytes))
    (accept_server_pubkey : ServerHello → Bytes → Result HandshakeError (Unit {0}))
    (small_key : length (public_key_bytes c server_sign) ≤ 30033) (cached : Bool)
    (hello : ServerHello) (kp : c.Ed25519KeyPair) (unique now : ℕ) (accepting : List Accepting)
    (server_wire client_wire signature : Bytes)
    (h : HonestClient.IsHonest c client_sign server_sign authorized_keys mode lookup_server_pubkey
      accept_server_pubkey small_key cached hello
      (own c client_sign server_sign authorized_keys mode lookup_server_pubkey accept_server_pubkey
        small_key cached hello kp unique now accepting server_wire client_wire signature)
      server_wire
      client_wire
      signature) where
  -- The client says nothing before it has the server's hello.
  pub client-silent :
      new_with_server_pubkey_lookup_inner c client_sign lookup_server_pubkey accept_server_pubkey
        (some kp)
        (ok unique)
        now
        accepting
        (open_channel [] [])
      ≡ some (err no_more, open_channel [] [])
  unfolding new_with_server_pubkey_lookup_inner
  client-silent = rw (receive-no_more []) refl

  exchange-waits :
      (sent : Bytes)
      → exchange c client_sign lookup_server_pubkey accept_server_pubkey
          (some kp)
          (ok unique)
          now
          accepting
          server_wire
          hello
          (public_key_bytes c server_sign)
          (open_channel [] sent)
        ≡ some (err no_more, open_channel [] (sent ++ encode client_wire))
  unfolding exchange PacketKey.new_sign
  exchange-waits sent = rw (h.serialized, receive-no_more (sent ++ encode client_wire)) refl

  -- With the server's hello and the answer to its request, it has sent its own hello.
  pub client-answered :
      new_with_server_pubkey_lookup_inner c client_sign lookup_server_pubkey accept_server_pubkey
        (some kp)
        (ok unique)
        now
        accepting
        (open_channel
          (incoming (encode server_wire)
            ++ (incoming (answers c server_sign client_sign authorized_keys mode cached) ++ []))
          [])
      ≡ some (err no_more, open_channel [] (asks cached ++ encode client_wire))
  unfolding new_with_server_pubkey_lookup_inner
  client-answered =
      let same : bytes_eq hello.conn_sign_public_key_sha256
            (c.sha256 (public_key_bytes c server_sign))
          ≡ true =
        ap (bytes_eq hello.conn_sign_public_key_sha256) (sym h.digest)
        ∙ bytes_eq_refl hello.conn_sign_public_key_sha256 in
      rw
        (
          receive-encode server_wire
              (incoming (answers c server_sign client_sign authorized_keys mode cached) ++ []) []
              h.small,
          h.parsed,
          h.found,
          asked c client_sign server_sign authorized_keys mode lookup_server_pubkey
              accept_server_pubkey small_key cached [] [],
          same,
          h.accepted,
        )
        (exchange-waits (asks cached))

  -- With the server's hello alone it has asked for the key, if it has none.
  pub client-asks :
      cached ≡ false
      → new_with_server_pubkey_lookup_inner c client_sign lookup_server_pubkey accept_server_pubkey
          (some kp)
          (ok unique)
          now
          accepting
          (open_channel (incoming (encode server_wire) ++ []) [])
        ≡ some (err no_more, open_channel [] (asks false))
  unfolding new_with_server_pubkey_lookup_inner serialize_unsigned
  client-asks new =
      let unknown : lookup_server_pubkey hello ≡ ok none =
        h.found
        ∙ ap
            (λ (b : Bool). ok (
              known c client_sign server_sign authorized_keys mode lookup_server_pubkey
                accept_server_pubkey small_key b))
            new in
      rw (receive-encode server_wire [] [] h.small, h.parsed, unknown, receive-no_more (asks false))
        refl

module _ (c : Crypto) (server_sign client_sign : ConnSign c)
    (authorized_keys : Bytes → Option Bytes)
    (mode : server_sign.quantum_insecure ≡ client_sign.quantum_insecure) (unique : ℕ)
    (h : ClientHello) (wire : Bytes)
    (honest : HonestServer.IsHonest c server_sign client_sign authorized_keys mode unique h wire)
    (kp : c.Ed25519KeyPair) (now : ℕ) (accepting : List Accepting) (server_wire : Bytes)
    (made : serialize_unsigned (
        server_hello (
          Server.Run.own_hello c server_sign authorized_keys unique
            (record { key_pair = kp; sign_counter = 0 })))
      ≡ ok server_wire) where
  hello_loop-waits :
      (fuel : ℕ) (sent : Bytes)
      → hello_loop c server_sign authorized_keys unique (suc fuel) (open_channel [] sent)
        ≡ some (err no_more, open_channel [] sent)
  unfolding hello_loop
  hello_loop-waits fuel sent = rw (receive-no_more sent) refl

  hello_loop-answers :
      (fuel : ℕ) (sent : Bytes)
      → 2 ≤ fuel
      → hello_loop c server_sign authorized_keys unique fuel
          (open_channel (incoming (encode request_wire) ++ []) sent)
        ≡ some (
          err no_more,
          open_channel [] (sent ++ answers c server_sign client_sign authorized_keys mode false),
        )
  hello_loop-answers zero sent n = absurd (omega arith)
  hello_loop-answers (suc zero) sent n = absurd (omega arith)
  hello_loop-answers (suc (suc fuel)) sent n =
      request_turn c server_sign client_sign authorized_keys mode unique h wire honest (suc fuel) []
        sent
      ∙ hello_loop-waits fuel (sent ++ answers c server_sign client_sign authorized_keys mode false)

  -- The server sends its hello unasked.
  pub server-greets :
      new_inner c server_sign authorized_keys
        (some kp)
        (ok unique)
        now
        accepting
        (open_channel [] [])
      ≡ some (err no_more, open_channel [] (encode server_wire))
  unfolding new_inner client_hello_received PacketKey.new_sign
  server-greets = rw (made, hello_loop-waits 0 (encode server_wire)) refl

  -- With a request it has sent its public key too.
  pub server-answers :
      new_inner c server_sign authorized_keys
        (some kp)
        (ok unique)
        now
        accepting
        (open_channel (incoming (asks false) ++ []) [])
      ≡ some (
        err no_more,
        open_channel []
            (encode server_wire ++ answers c server_sign client_sign authorized_keys mode false),
      )
  unfolding new_inner client_hello_received PacketKey.new_sign
  server-answers =
      rw
        (
          made,
          hello_loop-answers (suc (length (incoming (encode request_wire) ++ [])))
              (encode server_wire)
              (omega (arith, length-incoming (encode request_wire) [], length-encode request_wire)),
        )
        refl
