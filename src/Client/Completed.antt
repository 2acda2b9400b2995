-- ===== src/Client/Completed.antt =====
-- src/client.rs: what a handshake that the client completes has gone through.
use axsh.Prelude.{
  ℕ, ◌≡◌, refl, ap, ◌∙◌, true, Bytes, bytes_eq, bytes_eq→eq, List, [], ◌∷◌, ◌++◌, append-nil, sym,
  Option, none, some, Result, ok, err, ok_or, map_err, map_err-ok,
}
use mathlib.Core.Path.{subst}
use axsh.Crypto.{Crypto}
use axsh.Hdlc.{encode}
use axsh.Handshake.{HandshakeError, packet, no_key_pair, digest_mismatch, bad_transcript, Channel}
use axsh.Handshake.Reads.{Reads, Moved, Moved-append}
use axsh.Handshake.Steps.{from_step, from_lift, from_check, from_send, from_receive}
use axsh.ConnKey.{ConnSign, verify_detached}
use axsh.ConnKey.Verify.{IsSigned}
use axsh.PacketKey
use axsh.PacketKey.{PacketSign}
use axsh.Packet.Hello.{ServerHello}
use axsh.Packet.Wire.{Packet, server_hello, client_hello, server_complete, serialize_conn_signed}
use axsh.Transport.{Accepting, new_stream}
use axsh.Client.Run.{
  ClientStream, as_server_hello, as_server_complete, parse, found_or_asked, server_verifier,
  own_hello, established, exchange, new_with_server_pubkey_lookup_inner,
}
use axsh.Client.Answers.{
  as_server_hello-ok, as_server_complete-ok, Parses, Source, complete-IsSigned, found_or_asked_lem,
}

module _ (c : Crypto) (conn_sign : ConnSign c)
    (lookup_server_pubkey : ServerHello → Result HandshakeError (Option Bytes))
    (accept_server_pubkey : ServerHello → Bytes → Result HandshakeError (Unit {0})) where
  abbrev From : Result HandshakeError (Option Bytes) → Bytes → Bytes → List Bytes → Type 0
  From = Source c conn_sign lookup_server_pubkey accept_server_pubkey

  abbrev Reading : Bytes → Packet → Type 0
  Reading = Parses c conn_sign lookup_server_pubkey accept_server_pubkey

  -- What a completed handshake has seen and made, in the order of the code.
  pub record Completed (random : Result HandshakeError ℕ) (now : ℕ) (accepting : List Accepting)
      (channel final : Channel) (s : ClientStream c) : Type 0 where
    pub server_hello_wire : Bytes
    pub public_key : Bytes
    pub requests : Bytes
    pub answers : List Bytes
    pub packet_sign : PacketSign c
    pub unique : ℕ
    pub client_hello_wire : Bytes
    pub complete_wire : Bytes
    pub signature : Bytes
    pub received :
        Reads channel.incoming
          (server_hello_wire ∷ (answers ++ (complete_wire ∷ [])))
          final.incoming
    pub parsed : Reading server_hello_wire (server_hello s.server_hello)
    pub source : From (lookup_server_pubkey s.server_hello) public_key requests answers
    pub matching : s.server_hello.conn_sign_public_key_sha256 ≡ c.sha256 public_key
    pub accepted : accept_server_pubkey s.server_hello public_key ≡ ok tt
    pub drawn : random ≡ ok unique
    pub hello :
        serialize_conn_signed c
          (client_hello
            (own_hello c conn_sign lookup_server_pubkey accept_server_pubkey unique packet_sign))
          conn_sign
          s.server_hello.unique
        ≡ ok client_hello_wire
    pub complete : Reading complete_wire (server_complete signature)
    pub signed :
        IsSigned c
          (server_verifier c conn_sign lookup_server_pubkey accept_server_pubkey public_key)
          signature
          (server_hello_wire ++ client_hello_wire)
    pub sent : final.sent ≡ channel.sent ++ (requests ++ encode client_hello_wire)
    pub transport :
        s.transport
        ≡ new_stream c
            (record { incoming = final.incoming; accepting = accepting; sent = final.sent })
            packet_sign
            (PacketKey.new_verify now s.server_hello.packet_sign_public_key)

  abbrev OnCompletion :
      Result HandshakeError ℕ
      → ℕ
      → List Accepting
      → Channel
      → Option (Result HandshakeError (ClientStream c) × Channel)
      → Type 0
  OnCompletion random now accepting channel none = Unit
  OnCompletion random now accepting channel (some (err x, final)) = Unit
  OnCompletion random now accepting channel (some (ok s, final)) =
      Completed random now accepting channel final s

  -- What has happened before the client's hello.
  record Prepared (channel first : Channel) (server_wire key : Bytes) (hello : ServerHello)
      : Type 0 where
    requests : Bytes
    answers : List Bytes
    parsed : Reading server_wire (server_hello hello)
    source : From (lookup_server_pubkey hello) key requests answers
    matching : hello.conn_sign_public_key_sha256 ≡ c.sha256 key
    accepted : accept_server_pubkey hello key ≡ ok tt
    moved : Moved channel first (server_wire ∷ answers) requests

  exchange-Completed :
      (generated : Option c.Ed25519KeyPair) (random : Result HandshakeError ℕ) (now : ℕ)
      (accepting : List Accepting) (channel first final : Channel) (server_wire key : Bytes)
      (hello : ServerHello) (s : ClientStream c)
      → Prepared channel first server_wire key hello
      → exchange c conn_sign lookup_server_pubkey accept_server_pubkey generated random now
          accepting server_wire hello key first
        ≡ some (ok s, final)
      → Completed random now accepting channel final s
  unfolding exchange
  exchange-Completed generated random now accepting channel first final server_wire key hello s b
        e =
      let mine = own_hello c conn_sign lookup_server_pubkey accept_server_pubkey in
      from_lift (ok_or (PacketKey.new_sign c generated) no_key_pair) _ first e (λ packet_sign _ f1.
        from_lift random _ first f1 (λ unique drawn f2.
          from_lift
            (map_err packet (
              serialize_conn_signed c (client_hello (mine unique packet_sign)) conn_sign
                hello.unique))
            _ first f2
            (λ client_wire made f3. from_send (encode client_wire) _ first f3 (λ c1 sent1 f4.
              from_receive _ c1 f4 (λ wire c2 got f5.
                from_lift (parse c conn_sign lookup_server_pubkey accept_server_pubkey wire) _ c2 f5
                  (λ p parsed f6. from_lift (as_server_complete p) _ c2 f6 (λ signature complete f7.
                    from_check
                      (verify_detached c
                        (server_verifier c conn_sign lookup_server_pubkey accept_server_pubkey key)
                        signature (server_wire ++ client_wire))
                      bad_transcript _ c2 f7
                      (λ valid f8.
                        let moved : Moved channel c2 ((server_wire ∷ b.answers) ++ (wire ∷ []))
                            (b.requests ++ (encode client_wire ++ [])) =
                          Moved-append b.moved (Moved-append sent1 got) in
                        subst (OnCompletion random now accepting channel)
                          {x = established c conn_sign lookup_server_pubkey accept_server_pubkey
                            accepting now packet_sign hello c2}
                          f8
                          (record {
                            server_hello_wire = server_wire;
                            public_key = key;
                            requests = b.requests;
                            answers = b.answers;
                            packet_sign = packet_sign;
                            unique = unique;
                            client_hello_wire = client_wire;
                            complete_wire = wire;
                            signature = signature;
                            received = moved.received;
                            parsed = b.parsed;
                            source = b.source;
                            matching = b.matching;
                            accepted = b.accepted;
                            drawn = drawn;
                            hello = map_err-ok packet _ made;
                            complete =
                                map_err-ok packet _ parsed
                                ∙ ap (λ (p : Packet). ok p)
                                    (as_server_complete-ok p signature complete);
                            signed =
                                complete-IsSigned c conn_sign lookup_server_pubkey
                                  accept_server_pubkey wire signature key
                                  (server_wire ++ client_wire) p parsed complete valid;
                            sent =
                                moved.sent
                                ∙ ap (λ (t : Bytes). channel.sent ++ (b.requests ++ t))
                                    (append-nil (encode client_wire));
                            transport = refl;
                          })))))))))

  -- A client that completes the handshake has read exactly these frames, in this order: a server hello,
  -- the answer to its request if it has sent one, and the server's last packet. The public key has the
  -- digest in the hello, and is from the lookup; or the lookup had none, and it is the key in the answer.
  -- The application has accepted this key, and the signature in the last packet is valid for it in the
  -- client's mode and over the two hellos, the one as it was read and the other as it was sent. The
  -- transport checks payloads, from the counter 0 on, with the key in the server's hello.
  pub new_with_server_pubkey_lookup_inner-Completed :
      (generated : Option c.Ed25519KeyPair) (random : Result HandshakeError ℕ) (now : ℕ)
      (accepting : List Accepting) (channel final : Channel) (s : ClientStream c)
      → new_with_server_pubkey_lookup_inner c conn_sign lookup_server_pubkey accept_server_pubkey
          generated random now accepting channel
        ≡ some (ok s, final)
      → Completed random now accepting channel final s
  unfolding new_with_server_pubkey_lookup_inner
  new_with_server_pubkey_lookup_inner-Completed generated random now accepting channel final s e =
      from_receive _ channel e (λ server_wire c1 moved f1.
        from_lift (parse c conn_sign lookup_server_pubkey accept_server_pubkey server_wire) _ c1 f1
          (λ p parsed f2. from_lift (as_server_hello p) _ c1 f2 (λ hello is_hello f3.
            from_lift (lookup_server_pubkey hello) _ c1 f3 (λ found looked_up f4.
              from_step (found_or_asked c conn_sign lookup_server_pubkey accept_server_pubkey found)
                _ c1 f4
                (λ key c2 got f5.
                  from_check (bytes_eq hello.conn_sign_public_key_sha256 (c.sha256 key))
                    digest_mismatch _ c2 f5
                    (λ same f6. from_lift (accept_server_pubkey hello key) _ c2 f6 (λ u accepted f7.
                      exchange-Completed generated random now accepting channel c2 final server_wire
                        key hello s
                        (let (requests, answers, source, more) =
                            found_or_asked_lem c conn_sign lookup_server_pubkey accept_server_pubkey
                              found c1 c2 key got in
                          prepared server_wire p hello found key c1 c2 moved parsed is_hello
                            looked_up same accepted requests answers source more)
                        f7)))))))
    where
      prepared :
          (server_wire : Bytes) (p : Packet) (hello : ServerHello) (found : Option Bytes)
          (key : Bytes) (c1 c2 : Channel)
          → Moved channel c1 (server_wire ∷ []) []
          → parse c conn_sign lookup_server_pubkey accept_server_pubkey server_wire ≡ ok p
          → as_server_hello p ≡ ok hello
          → lookup_server_pubkey hello ≡ ok found
          → bytes_eq hello.conn_sign_public_key_sha256 (c.sha256 key) ≡ true
          → accept_server_pubkey hello key ≡ ok tt
          → (requests : Bytes) (answers : List Bytes) → From (ok found) key requests answers
          → Moved c1 c2 answers requests
          → Prepared channel c2 server_wire key hello
      prepared server_wire p hello found key c1 c2 moved parsed is_hello looked_up same accepted
            requests answers source more =
          record {
            requests = requests;
            answers = answers;
            parsed =
                map_err-ok packet _ parsed
                ∙ ap (λ (p : Packet). ok p) (as_server_hello-ok p hello is_hello);
            source =
                subst (λ (r : Result HandshakeError (Option Bytes)). From r key requests answers)
                  (sym looked_up) source;
            matching = bytes_eq→eq hello.conn_sign_public_key_sha256 (c.sha256 key) same;
            accepted = accepted;
            moved = Moved-append moved more;
          }
