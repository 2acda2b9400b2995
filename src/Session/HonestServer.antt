-- ===== src/Session/HonestServer.antt =====
-- src/server.rs: the handshake of the server with an honest client.
use axsh.Prelude.{
  ℕ, zero, suc, ◌+◌, ◌≤◌, ◌≡◌, refl, sym, ap, ◌∙◌, Bool, true, false, Bytes, length, List, [], ◌∷◌,
  ◌++◌, append-nil, arith, Option, none, some, ok, map_err,
}
use axsh.Crypto.{Crypto}
use axsh.Hdlc.{encode}
use axsh.Hdlc.RoundTrip.{length-encode}
use axsh.Hdlc.Reader.{Incoming, incoming}
use axsh.Handshake.{packet, Handshake, ◌>>◌, send}
use axsh.Handshake.Forward.{open_channel, then_lift, then_send, then_receive}
use axsh.ConnKey.{
  ConnSign, ConnVerify, sign_detached, verifier, peer_verifier, new_verify, public_key_bytes,
}
use axsh.PacketKey
use axsh.Packet.Hello.{ClientHello}
use axsh.Packet.Wire.{
  client_hello, server_hello, server_complete, type_request_server_pubkey, type_server_pubkey,
  type_client_hello, type_server_complete, serialize_unsigned, deserialize, peek_type,
  peek_client_hello,
}
use axsh.Transport.{Accepting, new_stream}
use axsh.Server.Accept.{request_reply, accept_client_hello}
use axsh.Server.Run.{
  ServerStream, on_packet, hello_loop, client_hello_received, own_hello, new_inner,
}

abbrev pub request_wire : Bytes
request_wire = type_request_server_pubkey ∷ []

-- What a client asks that has the key, or has not.
abbrev pub asks : Bool → Bytes
asks true = []
asks false = encode request_wire

pub length-incoming :
    (xs : Bytes) (rest : List Incoming) → length (incoming xs ++ rest) ≡ length xs + length rest
length-incoming [] rest = omega arith
length-incoming (x ∷ xs) rest = omega (arith, length-incoming xs rest)

module _ (c : Crypto) (server_sign client_sign : ConnSign c)
    (authorized_keys : Bytes → Option Bytes)
    (mode : server_sign.quantum_insecure ≡ client_sign.quantum_insecure) where
  -- What it answers.
  abbrev pub answers : Bool → Bytes
  answers true = []
  answers false = encode (type_server_pubkey ∷ public_key_bytes c server_sign)

  same_verifier :
      peer_verifier c server_sign (public_key_bytes c client_sign) ≡ verifier c client_sign
  unfolding peer_verifier verifier new_verify
  same_verifier =
      ap
        (λ (q : Bool). record {
          public_key_bundle = public_key_bytes c client_sign;
          quantum_insecure = q;
        })
        mode

  request_reply_answer :
      request_reply c server_sign authorized_keys request_wire ≡ ok (answers false)
  unfolding request_reply deserialize serialize_unsigned
  request_reply_answer = refl

  -- The client's hello, as it is on the wire, for the server's nonce.
  pub record IsHonest (unique : ℕ) (h : ClientHello) (wire : Bytes) : Type 0 where
    pub body : Bytes
    pub shape : wire ≡ type_client_hello ∷ body
    pub known :
        authorized_keys h.conn_sign_public_key_sha256 ≡ some (public_key_bytes c client_sign)
    pub accepted :
        deserialize c 0 0 wire
          (some unique)
          (some (verifier c client_sign))
          none
          client_sign.quantum_insecure
        ≡ (ok (client_hello h), none)
    pub peeked : peek_client_hello c wire client_sign.quantum_insecure ≡ ok h
    pub small : length wire ≤ 32765

  module _ (unique : ℕ) (h : ClientHello) (wire : Bytes) (honest : IsHonest unique h wire) where
    peeked : peek_client_hello c wire server_sign.quantum_insecure ≡ ok h
    peeked = ap (peek_client_hello c wire) mode ∙ honest.peeked

    accepted :
        deserialize c 0 0 wire
          (some unique)
          (some (peer_verifier c server_sign (public_key_bytes c client_sign)))
          none
          server_sign.quantum_insecure
        ≡ (ok (client_hello h), none)
    accepted =
        ap
          (λ (v : ConnVerify).
            deserialize c 0 0 wire (some unique) (some v) none server_sign.quantum_insecure)
          same_verifier
        ∙ ap (deserialize c 0 0 wire (some unique) (some (verifier c client_sign)) none) mode
        ∙ honest.accepted

    accept_answer : accept_client_hello c server_sign authorized_keys unique wire ≡ ok h
    unfolding accept_client_hello
    accept_answer = rw (peeked, honest.known, accepted)

    peek : peek_type wire ≡ ok type_client_hello
    unfolding peek_type
    peek = rw honest.shape

    hello_turn :
        (fuel : ℕ) (rest : List Incoming) (sent : Bytes)
        → hello_loop c server_sign authorized_keys unique
            (suc fuel)
            (open_channel (incoming (encode wire) ++ rest) sent)
          ≡ some (ok (wire, h), open_channel rest sent)
    unfolding hello_loop on_packet
    hello_turn fuel rest sent = then_receive wire _ rest sent honest.small (
        then_lift (map_err packet (peek_type wire)) _ (open_channel rest sent)
          (ap (map_err packet) peek)
          (then_lift (accept_client_hello c server_sign authorized_keys unique wire) _
            (open_channel rest sent) accept_answer refl))

    pub request_turn :
        (fuel : ℕ) (rest : List Incoming) (sent : Bytes)
        → hello_loop c server_sign authorized_keys unique
            (suc fuel)
            (open_channel (incoming (encode request_wire) ++ rest) sent)
          ≡ hello_loop c server_sign authorized_keys unique fuel
              (open_channel rest (sent ++ answers false))
    unfolding hello_loop on_packet peek_type
    request_turn fuel rest sent = then_receive request_wire _ rest sent (omega arith) (
        then_lift (map_err packet (peek_type request_wire))
          (on_packet c server_sign authorized_keys unique again request_wire)
          (open_channel rest sent) refl
          (then_lift (request_reply c server_sign authorized_keys request_wire)
            (λ frame. send frame >> again) (open_channel rest sent) request_reply_answer
            (then_send (answers false) again rest sent refl)))
      where
        again : Handshake (Bytes × ClientHello)
        again = hello_loop c server_sign authorized_keys unique fuel

    two_turns :
        (fuel : ℕ) (rest : List Incoming) (sent : Bytes)
        → 2 ≤ fuel
        → hello_loop c server_sign authorized_keys unique fuel
            (open_channel (incoming (encode request_wire) ++ (incoming (encode wire) ++ rest)) sent)
          ≡ some (ok (wire, h), open_channel rest (sent ++ answers false))
    two_turns zero rest sent n = absurd (omega arith)
    two_turns (suc zero) rest sent n = absurd (omega arith)
    two_turns (suc (suc fuel)) rest sent n =
        request_turn (suc fuel) (incoming (encode wire) ++ rest) sent
        ∙ hello_turn fuel rest (sent ++ answers false)

    pub received :
        (cached : Bool) (sent : Bytes)
        → client_hello_received c server_sign authorized_keys unique
            (open_channel (incoming (asks cached) ++ (incoming (encode wire) ++ [])) sent)
          ≡ some (ok (wire, h), open_channel [] (sent ++ answers cached))
    unfolding client_hello_received
    received true sent =
        hello_turn _ [] sent
        ∙ ap (λ (t : Bytes). some (ok (wire, h), open_channel [] t)) (sym (append-nil sent))
    received false sent = two_turns _ [] sent (
        omega (
          arith,
          length-incoming (encode request_wire) (incoming (encode wire) ++ []),
          length-encode request_wire,
        ))

    complete_wire :
        (signature : Bytes)
        → serialize_unsigned (server_complete signature) ≡ ok (type_server_complete ∷ signature)
    unfolding serialize_unsigned
    complete_wire signature = refl

    -- The whole handshake with this client.
    pub server_runs :
        (cached : Bool) (kp : c.Ed25519KeyPair) (now : ℕ) (accepting : List Accepting)
        (server_wire signature : Bytes)
        → serialize_unsigned (
            server_hello (
              own_hello c server_sign authorized_keys unique
                (record { key_pair = kp; sign_counter = 0 })))
          ≡ ok server_wire
        → sign_detached c server_sign (server_wire ++ wire) ≡ ok signature
        → (t : ServerStream c) × (new_inner c server_sign authorized_keys
              (some kp)
              (ok unique)
              now
              accepting
              (open_channel (incoming (asks cached) ++ (incoming (encode wire) ++ [])) [])
            ≡ some (
              ok t,
              open_channel [] (
                  (encode server_wire ++ answers cached)
                  ++ encode (type_server_complete ∷ signature)),
            ))
    unfolding new_inner PacketKey.new_sign
    server_runs cached kp now accepting server_wire signature made signed = (
      record {
        client_hello = h;
        transport =
            new_stream c
              (record {
                incoming = [];
                accepting = accepting;
                sent =
                    (encode server_wire ++ answers cached)
                    ++ encode (type_server_complete ∷ signature);
              })
              (record { key_pair = kp; sign_counter = 0 })
              (PacketKey.new_verify now h.packet_sign_public_key);
      },
      rw (made, received cached (encode server_wire), signed, complete_wire signature) refl,
    )
