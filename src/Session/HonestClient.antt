-- ===== src/Session/HonestClient.antt =====
-- src/client.rs: the handshake of the client with an honest server.
use axsh.Prelude.{
  ℕ, ◌≤◌, ◌≡◌, refl, sym, ap, ◌∙◌, Bool, true, false, Bytes, bytes_eq, bytes_eq_refl, length, List,
  [], ◌∷◌, ◌++◌, append-nil, arith, Option, none, some, Result, ok,
}
use axsh.Crypto.{Crypto}
use axsh.Hdlc.{encode}
use axsh.Hdlc.Reader.{Incoming, incoming}
use axsh.Handshake.{HandshakeError}
use axsh.Handshake.Forward.{open_channel, receive-encode}
use axsh.ConnKey.{ConnSign, verify_detached, public_key_bytes}
use axsh.PacketKey
use axsh.PacketKey.{PacketSign}
use axsh.Packet.Hello.{ServerHello, ClientHello}
use axsh.Packet.Wire.{
  client_hello, server_hello, server_complete, type_server_pubkey, type_server_complete,
  serialize_unsigned, serialize_conn_signed, deserialize,
}
use axsh.Transport.{Accepting, new_stream}
use axsh.Client.Run.{
  ClientStream, found_or_asked, server_verifier, own_hello, exchange,
  new_with_server_pubkey_lookup_inner,
}
use axsh.Session.HonestServer.{asks, answers}

module _ (c : Crypto) (client_sign server_sign : ConnSign c)
    (authorized_keys : Bytes → Option Bytes)
    (mode : server_sign.quantum_insecure ≡ client_sign.quantum_insecure)
    (lookup_server_pubkey : ServerHello → Result HandshakeError (Option Bytes))
    (accept_server_pubkey : ServerHello → Bytes → Result HandshakeError (Unit {0}))
    (small_key : length (public_key_bytes c server_sign) ≤ 30033) where
  abbrev pub server_key : Bytes
  server_key = public_key_bytes c server_sign

  abbrev pub replies : Bool → Bytes
  replies cached = answers c server_sign client_sign authorized_keys mode cached

  abbrev pub known : Bool → Option Bytes
  known true = some server_key
  known false = none

  -- The key comes from the lookup, or from the answer to a request.
  pub asked :
      (cached : Bool) (rest : List Incoming) (sent : Bytes)
      → found_or_asked c client_sign lookup_server_pubkey accept_server_pubkey
          (known cached)
          (open_channel (incoming (replies cached) ++ rest) sent)
        ≡ some (ok server_key, open_channel rest (sent ++ asks cached))
  unfolding serialize_unsigned deserialize
  asked true rest sent =
      ap (λ (t : Bytes). some (ok server_key, open_channel rest t)) (sym (append-nil sent))
  asked false rest sent =
      rw (receive-encode (type_server_pubkey ∷ server_key) rest (sent ++ asks false) (omega arith))
        refl

  -- What the server sends, and the client's own hello.
  pub record IsHonest (cached : Bool) (hello : ServerHello) (own : ClientHello)
      (server_wire client_wire signature : Bytes) : Type 0 where
    pub parsed :
        (deserialize c 0 0 server_wire none none none client_sign.quantum_insecure).0
        ≡ ok (server_hello hello)
    pub found : lookup_server_pubkey hello ≡ ok (known cached)
    pub digest : hello.conn_sign_public_key_sha256 ≡ c.sha256 server_key
    pub accepted : accept_server_pubkey hello server_key ≡ ok tt
    pub serialized :
        serialize_conn_signed c (client_hello own) client_sign hello.unique ≡ ok client_wire
    pub complete :
        (deserialize c 0 0
          (type_server_complete ∷ signature)
          none
          none
          none
          client_sign.quantum_insecure).0
        ≡ ok (server_complete signature)
    pub valid :
        verify_detached c
          (server_verifier c client_sign lookup_server_pubkey accept_server_pubkey server_key)
          signature
          (server_wire ++ client_wire)
        ≡ true
    pub small : length server_wire ≤ 32765
    pub small_complete : length signature ≤ 30064

  module _ (cached : Bool) (hello : ServerHello) (kp : c.Ed25519KeyPair) (unique now : ℕ)
      (accepting : List Accepting) (server_wire client_wire signature : Bytes) where
    abbrev pub packet_sign : PacketSign c
    packet_sign = record { key_pair = kp; sign_counter = 0 }

    abbrev pub own : ClientHello
    own = own_hello c client_sign lookup_server_pubkey accept_server_pubkey unique packet_sign

    exchanged :
        (rest : List Incoming) (sent : Bytes)
        → IsHonest cached hello own server_wire client_wire signature
        → (s : ClientStream c) × (exchange c client_sign lookup_server_pubkey accept_server_pubkey
              (some kp)
              (ok unique)
              now
              accepting
              server_wire
              hello
              server_key
              (open_channel (incoming (encode (type_server_complete ∷ signature)) ++ rest) sent)
            ≡ some (ok s, open_channel rest (sent ++ encode client_wire)))
    unfolding exchange PacketKey.new_sign
    exchanged rest sent h = (
      record {
        server_hello = hello;
        transport =
            new_stream c
              (record { incoming = rest; accepting = accepting; sent = sent ++ encode client_wire })
              packet_sign (PacketKey.new_verify now hello.packet_sign_public_key);
      },
      rw
          (
            h.serialized,
            receive-encode (type_server_complete ∷ signature) rest (sent ++ encode client_wire)
                (omega (arith, h.small_complete)),
            h.complete,
            h.valid,
          )
          refl,
    )

    pub client_runs :
        IsHonest cached hello own server_wire client_wire signature
        → (s : ClientStream c) × (new_with_server_pubkey_lookup_inner c client_sign
              lookup_server_pubkey accept_server_pubkey
              (some kp)
              (ok unique)
              now
              accepting
              (open_channel
                (incoming (encode server_wire)
                  ++ (incoming (replies cached)
                      ++ (incoming (encode (type_server_complete ∷ signature)) ++ [])))
                [])
            ≡ some (ok s, open_channel [] (asks cached ++ encode client_wire)))
    unfolding new_with_server_pubkey_lookup_inner
    client_runs h =
        let rest = incoming (encode (type_server_complete ∷ signature)) ++ [] in
        let (s, e) = exchanged [] (asks cached) h in
        let same : bytes_eq hello.conn_sign_public_key_sha256 (c.sha256 server_key) ≡ true =
          ap (bytes_eq hello.conn_sign_public_key_sha256) (sym h.digest)
          ∙ bytes_eq_refl hello.conn_sign_public_key_sha256 in
        (
          s,
          rw
              (
                receive-encode server_wire (incoming (replies cached) ++ rest) [] h.small,
                h.parsed,
                h.found,
                asked cached rest [],
                same,
                h.accepted,
              )
              e,
        )
