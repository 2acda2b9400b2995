-- ===== src/Server/Completed.antt =====
-- src/server.rs: what a handshake that the server completes has gone through.
use axsh.Prelude.{
  ℕ, zero, suc, ◌≡◌, refl, sym, ap, ◌∙◌, Bytes, length, List, [], ◌∷◌, ◌++◌, append-nil, Option,
  none, some, Bool-cases, inl, inr, ◌==◌, Result, ok, err, bind-ok, ok-injective, ok_or, map_err,
  map_err-ok,
}
use mathlib.Core.Path.{subst}
use axsh.Crypto.{Crypto}
use axsh.Hdlc.{encode}
use axsh.Handshake.{
  HandshakeError, packet, key, no_key_pair, unexpected_type, Channel, Handshake, return,
}
use axsh.Handshake.Reads.{Reads, Moved, Moved-append}
use axsh.Handshake.Steps.{lift-ok, from_step, from_lift, from_send, from_receive}
use axsh.ConnKey
use axsh.ConnKey.{ConnSign, sign_detached}
use axsh.PacketKey
use axsh.PacketKey.{PacketSign}
use axsh.Packet.Hello.{ClientHello}
use axsh.Packet.Wire.{
  Packet, request_server_pubkey, server_pubkey, client_hello, payload, server_hello,
  server_complete, type_server_pubkey, type_server_complete, type_request_server_pubkey,
  type_client_hello, serialize_unsigned, peek_type, deserialize,
}
use axsh.Server.Accept.{as_request, request_reply, accept_client_hello}
use axsh.Server.Authentic.{IsAuthentic, accept_client_hello-IsAuthentic}
use axsh.Server.Run.{
  ServerStream, on_packet, hello_loop, client_hello_received, own_hello, established, new_inner,
}
use axsh.Transport.{Accepting, new_stream}

as_request-ok : (p : Packet) (u : Unit {0}) → as_request p ≡ ok u → p ≡ request_server_pubkey
as_request-ok (server_hello h) u e = cc e
as_request-ok request_server_pubkey u e = refl
as_request-ok (server_pubkey bundle) u e = cc e
as_request-ok (client_hello h) u e = cc e
as_request-ok (server_complete s) u e = cc e
as_request-ok (payload d) u e = cc e

abbrev pub copies : ℕ → Bytes → Bytes
copies zero frame = []
copies (suc n) frame = frame ++ copies n frame

module _ (c : Crypto) (conn_sign : ConnSign c) (authorized_keys : Bytes → Option Bytes) where
  abbrev pub pubkey_frame : Bytes
  pubkey_frame = encode (type_server_pubkey ∷ ConnKey.public_key_bytes c conn_sign)

  -- `Packet::deserialize`, as the server calls it for a request, on each of these.
  abbrev pub AreRequests : List Bytes → Type 0
  AreRequests [] = Unit
  AreRequests (wire ∷ wires) =
      ((deserialize c 0 0 wire none none none conn_sign.quantum_insecure).0
        ≡ ok request_server_pubkey)
      × AreRequests wires

  request_reply_lem :
      (wire frame : Bytes)
      → request_reply c conn_sign authorized_keys wire ≡ ok frame
      → AreRequests (wire ∷ []) × (frame ≡ pubkey_frame)
  unfolding request_reply serialize_unsigned
  request_reply_lem wire frame e =
      let (p, parsed, f1) =
        bind-ok
          (map_err packet (deserialize c 0 0 wire none none none conn_sign.quantum_insecure).0) _
          e in
      let (u, is_request, f2) = bind-ok (as_request p) _ f1 in
      (
        (map_err-ok packet _ parsed ∙ ap (λ (p : Packet). ok p) (as_request-ok p u is_request), tt),
        sym (ok-injective f2),
      )

  -- The loop has read requests, and has sent the public key once for each; then it has read an authentic
  -- hello.
  record Received (unique : ℕ) (channel final : Channel) (wire : Bytes) (h : ClientHello)
      : Type 0 where
    requests : List Bytes
    asked : AreRequests requests
    moved : Moved channel final (requests ++ (wire ∷ [])) (copies (length requests) pubkey_frame)
    authentic : IsAuthentic c conn_sign authorized_keys unique wire h

  asked_again :
      (unique : ℕ) (channel first second final : Channel) (request wire : Bytes) (h : ClientHello)
      → AreRequests (request ∷ [])
      → Moved channel first (request ∷ []) []
      → Moved first second [] pubkey_frame
      → Received unique second final wire h
      → Received unique channel final wire h
  asked_again unique channel first second final request wire h (is_request, _) p q r = record {
    requests = request ∷ r.requests;
    asked = (is_request, r.asked);
    moved = Moved-append p (Moved-append q r.moved);
    authentic = r.authentic;
  }

  returned :
      (unique : ℕ) (channel first final : Channel) (wire wire' : Bytes) (h h' : ClientHello)
      → Moved channel first (wire' ∷ []) []
      → accept_client_hello c conn_sign authorized_keys unique wire' ≡ ok h'
      → return {A = Bytes × ClientHello} (wire', h') first ≡ some (ok (wire, h), final)
      → Received unique channel final wire h
  returned unique channel first final wire wire' h h' p accepted e =
      let (pair, same) = lift-ok (ok (wire', h')) e in
      subst (λ (x : Bytes × ClientHello). Received unique channel final x.0 x.1) (ok-injective pair)
        (record {
          requests = [];
          asked = tt;
          moved = subst (λ (d : Channel). Moved channel d (wire' ∷ []) []) same p;
          authentic =
              accept_client_hello-IsAuthentic c conn_sign authorized_keys unique wire' h' accepted;
        })

  on_packet-Received :
      (unique : ℕ) (next : Handshake (Bytes × ClientHello)) (t : ℕ) (channel first final : Channel)
      (wire wire' : Bytes) (h : ClientHello)
      → Moved channel first (wire' ∷ []) []
      → ((second : Channel)
          → next second ≡ some (ok (wire, h), final)
          → Received unique second final wire h)
      → on_packet c conn_sign authorized_keys unique next wire' t first ≡ some (ok (wire, h), final)
      → Received unique channel final wire h
  unfolding on_packet
  on_packet-Received unique next t channel first final wire wire' h kept go e =
      elim (Bool-cases (t == type_request_server_pubkey)) [
        | inl ask ↦
            from_lift (request_reply c conn_sign authorized_keys wire') _ first (rw ask at e)
              (λ frame reply f. from_send frame next first f (λ second sent g.
                let (is_request, same) = request_reply_lem wire' frame reply in
                asked_again unique channel first second final wire' wire h is_request kept
                  (subst (λ (f : Bytes). Moved first second [] f) same sent) (go second g)))
        | inr other ↦ elim (Bool-cases (t == type_client_hello)) [
          | inl hello ↦
              from_lift (accept_client_hello c conn_sign authorized_keys unique wire') _ first
                (rw (other, hello) at e)
                (λ h' accepted f.
                  returned unique channel first final wire wire' h h' kept accepted f)
          | inr neither ↦ cc (lift-ok (err (unexpected_type t)) (rw (other, neither) at e)).0
        ]
      ]

  hello_loop-Received :
      (unique fuel : ℕ) (channel final : Channel) (wire : Bytes) (h : ClientHello)
      → hello_loop c conn_sign authorized_keys unique fuel channel ≡ some (ok (wire, h), final)
      → Received unique channel final wire h
  unfolding hello_loop
  hello_loop-Received unique zero channel final wire h e = cc e
  hello_loop-Received unique (suc fuel) channel final wire h e =
      from_receive _ channel e (λ wire' first kept f.
        from_lift (map_err packet (peek_type wire')) _ first f (λ t _ g.
          on_packet-Received unique (hello_loop c conn_sign authorized_keys unique fuel) t channel
            first final wire wire' h kept
            (λ second. hello_loop-Received unique fuel second final wire h) g))

  -- If the server's loop ends with wire bytes and a hello, then these bytes are a body that decodes to
  -- that hello, behind a signature of the server's nonce and the body together, valid in the server's
  -- mode for a key that is authorized under the digest in the hello.
  pub hello_loop-IsAuthentic :
      (unique fuel : ℕ) (channel final : Channel) (wire : Bytes) (h : ClientHello)
      → hello_loop c conn_sign authorized_keys unique fuel channel ≡ some (ok (wire, h), final)
      → IsAuthentic c conn_sign authorized_keys unique wire h
  hello_loop-IsAuthentic unique fuel channel final wire h e =
      (hello_loop-Received unique fuel channel final wire h e).authentic

  complete_wire :
      (signature wire : Bytes)
      → map_err packet (serialize_unsigned (server_complete signature)) ≡ ok wire
      → wire ≡ type_server_complete ∷ signature
  unfolding serialize_unsigned
  complete_wire signature wire e = sym (ok-injective e)

  -- What a completed handshake has made and seen, in the order of the code.
  pub record Completed (random : Result HandshakeError ℕ) (now : ℕ) (accepting : List Accepting)
      (channel final : Channel) (s : ServerStream c) : Type 0 where
    pub packet_sign : PacketSign c
    pub unique : ℕ
    pub server_hello_wire : Bytes
    pub client_hello_wire : Bytes
    pub signature : Bytes
    pub requests : List Bytes
    pub drawn : random ≡ ok unique
    pub hello :
        serialize_unsigned (server_hello (own_hello c conn_sign authorized_keys unique packet_sign))
        ≡ ok server_hello_wire
    pub asked : AreRequests requests
    pub received : Reads channel.incoming (requests ++ (client_hello_wire ∷ [])) final.incoming
    pub authentic : IsAuthentic c conn_sign authorized_keys unique client_hello_wire s.client_hello
    pub signed : sign_detached c conn_sign (server_hello_wire ++ client_hello_wire) ≡ ok signature
    pub sent :
        final.sent
        ≡ channel.sent
          ++ (encode server_hello_wire
              ++ (copies (length requests) pubkey_frame
                  ++ encode (type_server_complete ∷ signature)))
    pub transport :
        s.transport
        ≡ new_stream c
            (record { incoming = final.incoming; accepting = accepting; sent = final.sent })
            packet_sign
            (PacketKey.new_verify now s.client_hello.packet_sign_public_key)

  abbrev OnCompletion :
      Result HandshakeError ℕ
      → ℕ
      → List Accepting
      → Channel
      → Option (Result HandshakeError (ServerStream c) × Channel)
      → Type 0
  OnCompletion random now accepting channel none = Unit
  OnCompletion random now accepting channel (some (err x, final)) = Unit
  OnCompletion random now accepting channel (some (ok s, final)) =
      Completed random now accepting channel final s

  -- A server that completes the handshake has read exactly these frames, in this order: a number of
  -- requests for its public key and an authentic hello. It has sent its hello, its public key once for
  -- each of the requests, and a signature of the two hellos, the one as it was sent and the other as it
  -- was read; and its transport checks payloads, from the counter 0 on, with the key in that hello.
  pub new_inner-Completed :
      (generated : Option c.Ed25519KeyPair) (random : Result HandshakeError ℕ) (now : ℕ)
      (accepting : List Accepting) (channel final : Channel) (s : ServerStream c)
      → new_inner c conn_sign authorized_keys generated random now accepting channel
        ≡ some (ok s, final)
      → Completed random now accepting channel final s
  unfolding new_inner client_hello_received
  new_inner-Completed generated random now accepting channel final s e =
      from_lift (ok_or (PacketKey.new_sign c generated) no_key_pair) _ channel e
        (λ packet_sign _ f1. from_lift random _ channel f1 (λ unique drawn f2.
          from_lift
            (map_err packet (
              serialize_unsigned
                (server_hello (own_hello c conn_sign authorized_keys unique packet_sign))))
            _ channel f2
            (λ server_wire made f3. from_send (encode server_wire) _ channel f3 (λ c1 sent1 f4.
              from_step (client_hello_received c conn_sign authorized_keys unique) _ c1 f4
                (λ (client_wire, h) c2 loop f5.
                  from_lift (map_err key (sign_detached c conn_sign (server_wire ++ client_wire))) _
                    c2 f5
                    (λ signature signed f6.
                      from_lift (map_err packet (serialize_unsigned (server_complete signature))) _
                        c2 f6
                        (λ wire complete f7. from_send (encode wire) _ c2 f7 (λ c3 sent3 f8.
                          let got =
                            hello_loop-Received unique (suc (length c1.incoming)) c1 c2 client_wire
                              h loop in
                          let moved : Moved channel c3 (got.requests ++ (client_wire ∷ [])) (
                              encode server_wire
                              ++ (copies (length got.requests) pubkey_frame ++ encode wire)) =
                            subst
                              (λ (ws : List Bytes). Moved channel c3 ws (
                                encode server_wire
                                ++ (copies (length got.requests) pubkey_frame ++ encode wire)))
                              (append-nil (got.requests ++ (client_wire ∷ [])))
                              (Moved-append sent1 (Moved-append got.moved sent3)) in
                          subst (OnCompletion random now accepting channel)
                            {x = established c conn_sign authorized_keys accepting now packet_sign h
                              c3}
                            f8
                            (record {
                              packet_sign = packet_sign;
                              unique = unique;
                              server_hello_wire = server_wire;
                              client_hello_wire = client_wire;
                              signature = signature;
                              requests = got.requests;
                              asked = got.asked;
                              received = moved.received;
                              drawn = drawn;
                              hello = map_err-ok _ _ made;
                              authentic = got.authentic;
                              signed = map_err-ok _ _ signed;
                              sent =
                                  moved.sent
                                  ∙ ap
                                      (λ (w : Bytes).
                                        channel.sent
                                        ++ (encode server_wire
                                            ++ (copies (length got.requests) pubkey_frame
                                                ++ encode w)))
                                      (complete_wire signature wire complete);
                              transport = refl;
                            })))))))))
