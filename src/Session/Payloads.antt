-- ===== src/Session/Payloads.antt =====
-- src/client.rs, src/server.rs and src/transport.rs: what is read from a session after the handshake.
use axsh.Prelude.{ℕ, ◌^◌, ◌<◌, ◌≡◌, ap, ◌∙◌, Bytes, length, List, ◌++◌, true, Option, some, Result}
use axsh.Crypto.{Crypto}
use axsh.Hdlc.Reader.{Incoming}
use axsh.Handshake.{HandshakeError, Channel}
use axsh.ConnKey.{ConnSign}
use axsh.PacketKey
use axsh.PacketKey.{PacketSign}
use axsh.PacketKey.Session.{Signed}
use axsh.Packet.Hello.{ServerHello, ClientHello}
use axsh.Transport.{Accepting, Stream, PayloadStream, new_stream}
use axsh.Transport.Delivered.{flatten}
use axsh.Transport.Reads.{reads, reads-IsPrefix}
use axsh.Client.Run.{ClientStream}
use axsh.Server.Run.{ServerStream}
use axsh.Session.Agreement.{
  HasLengths, Fits, ClientCompleted, ServerCompleted, SignedOnly, Completed-Agree,
}

-- That whatever verifies under the key was signed by its owner, with counter `i` for its payload `i`.
abbrev pub Unforged : Crypto → List Bytes → Bytes → Type 0
Unforged c payloads key =
    (input signature : Bytes) → c.ed25519_verify key input signature ≡ true → Signed payloads input

-- A sequence of reads, with so much room at each, returns, with the first bytes of the payloads.
abbrev pub ReadsFirst :
    (c : Crypto) → (List Incoming → ℕ × ℕ) → List Bytes → PayloadStream c → List ℕ → Type 0
ReadsFirst c clock payloads stream rooms =
    (got : Bytes) × (rest : Bytes) × (after : PayloadStream c) × (reads c clock stream rooms
      ≡ some (got, after))
    × (got ++ rest ≡ flatten payloads)

new_stream-ReadsFirst :
    (c : Crypto) (clock : List Incoming → ℕ × ℕ) (payloads : List Bytes) (key : Bytes)
    (stream : Stream) (signer : PacketSign c) (start : ℕ) (payload_stream : PayloadStream c)
    (rooms : List ℕ)
    → length payloads < 2 ^ 64
    → Unforged c payloads key
    → payload_stream ≡ new_stream c stream signer (PacketKey.new_verify start key)
    → ReadsFirst c clock payloads payload_stream rooms
new_stream-ReadsFirst c clock payloads key stream signer start payload_stream rooms count unforged
      e =
    let (got, rest, after, read, first) =
      reads-IsPrefix c clock payloads key count unforged stream signer start rooms in
    (got, rest, after, ap (λ (p : PayloadStream c). reads c clock p rooms) e ∙ read, first)

module _ (c : Crypto) (lengths : HasLengths c) (client_sign : ConnSign c)
    (lookup_server_pubkey : ServerHello → Result HandshakeError (Option Bytes))
    (accept_server_pubkey : ServerHello → Bytes → Result HandshakeError (Unit {0}))
    (server_sign : ConnSign c) (authorized_keys : Bytes → Option Bytes)
    (client_random server_random : Result HandshakeError ℕ) (client_now server_now : ℕ)
    (client_accepting server_accepting : List Accepting)
    (client_channel client_final server_channel server_final : Channel) (s : ClientStream c)
    (t : ServerStream c) where
  -- Of a client and a server that have both completed, where the key that the client has accepted
  -- has signed this server's transcript and nothing else, where the random numbers are 64-bit ones
  -- and digests and Ed25519 public keys have 32 bytes, and where whatever verifies under either
  -- packet key was signed by its owner, with counter `i` for its payload `i`: every sequence of
  -- reads of the client's session returns, with the first bytes of the server's payloads put
  -- together, and every one of the server's session with the first bytes of the client's, whatever
  -- the stream delivers, delays, repeats or breaks.
  pub Completed-ReadsFirst :
      Fits client_random
      → Fits server_random
      → (client : ClientCompleted c lengths client_sign lookup_server_pubkey accept_server_pubkey
          server_sign authorized_keys client_random server_random client_now server_now
          client_accepting server_accepting client_channel client_final server_channel server_final
          s t)
      → (server : ServerCompleted c lengths client_sign lookup_server_pubkey accept_server_pubkey
          server_sign authorized_keys client_random server_random client_now server_now
          client_accepting server_accepting client_channel client_final server_channel server_final
          s t)
      → SignedOnly c lengths client_sign lookup_server_pubkey accept_server_pubkey server_sign
          authorized_keys client_random server_random client_now server_now client_accepting
          server_accepting client_channel client_final server_channel server_final s t client server
      → (clock : List Incoming → ℕ × ℕ) (from_server from_client : List Bytes)
        (client_rooms server_rooms : List ℕ)
      → length from_server < 2 ^ 64
      → length from_client < 2 ^ 64
      → Unforged c from_server (PacketKey.public_key_bytes c server.packet_sign)
      → Unforged c from_client (PacketKey.public_key_bytes c client.packet_sign)
      → ReadsFirst c clock from_server s.transport client_rooms
        × ReadsFirst c clock from_client t.transport server_rooms
  Completed-ReadsFirst client_fits server_fits client server only clock from_server from_client
        client_rooms server_rooms m n server_signed client_signed =
      let agreed =
        Completed-Agree c lengths client_sign lookup_server_pubkey accept_server_pubkey server_sign
          authorized_keys client_random server_random client_now server_now client_accepting
          server_accepting client_channel client_final server_channel server_final s t client_fits
          server_fits client server only in
      (
        new_stream-ReadsFirst c clock from_server (PacketKey.public_key_bytes c server.packet_sign)
            _ _ client_now s.transport client_rooms m server_signed
            (client.transport
              ∙ ap
                  (λ (h : ServerHello).
                    new_stream c
                      (record {
                        incoming = client_final.incoming;
                        accepting = client_accepting;
                        sent = client_final.sent;
                      })
                      client.packet_sign (PacketKey.new_verify client_now h.packet_sign_public_key))
                  agreed.server_hello),
        new_stream-ReadsFirst c clock from_client (PacketKey.public_key_bytes c client.packet_sign)
            _ _ server_now t.transport server_rooms n client_signed
            (server.transport
              ∙ ap
                  (λ (h : ClientHello).
                    new_stream c
                      (record {
                        incoming = server_final.incoming;
                        accepting = server_accepting;
                        sent = server_final.sent;
                      })
                      server.packet_sign (PacketKey.new_verify server_now h.packet_sign_public_key))
                  agreed.client_hello),
      )
