-- ===== src/Session/Honest.antt =====
-- src/client.rs and src/server.rs: an honest client and an honest server on one connection.
use axsh.Prelude.{
  ℕ, ◌≤◌, ◌<◌, ◌^◌, ◌≡◌, refl, sym, ap, ◌∙◌, Bool, true, false, Bytes, length, List, [], ◌∷◌, ◌++◌,
  arith, Option, none, some, if◌then◌else◌, Result, ok, ok-injective,
}
use axsh.Crypto.{Crypto, CryptoLaws}
use axsh.Hdlc.{encode}
use axsh.Hdlc.Reader.{incoming}
use axsh.Handshake.{HandshakeError, Handshake}
use axsh.Handshake.Forward.{open_channel}
use axsh.ConnKey
use axsh.ConnKey.{
  ConnSign, ConnVerify, verify_detached, verifier, new_verify, public_key_bytes, conn_signature_len,
}
use axsh.PacketKey
use axsh.PacketKey.{PacketSign}
use axsh.Packet.Hello.{ServerHello, ClientHello, IsServerHello, IsClientHello}
use axsh.Packet.RoundTrip.{deserialize-serialize_unsigned}
use axsh.Packet.Wire.{
  server_hello, server_complete, type_server_complete, serialize_unsigned, deserialize,
}
use axsh.Transport.{Accepting}
use axsh.Client
use axsh.Client.Run.{ClientStream, server_verifier, new_with_server_pubkey_lookup_inner}
use axsh.Server
use axsh.Server.Run.{ServerStream, new_inner}
use axsh.Session.Agreement.{serialize_unsigned-length}
use axsh.Session.Answers.{Signs, length-public_key_bytes, detached, hello_signed}
use axsh.Session.Rounds.{rounds, on}
use axsh.Session.Exchanged.{two, three, exchanged}
use axsh.Session.HonestServer
use axsh.Session.HonestServer.{asks, answers, server_runs}
use axsh.Session.HonestClient
use axsh.Session.HonestClient.{known, client_runs}

module _ (c : Crypto) (laws : CryptoLaws c) (client_sign server_sign : ConnSign c)
    (client_signs : Signs c client_sign) (server_signs : Signs c server_sign)
    (mode : server_sign.quantum_insecure ≡ client_sign.quantum_insecure)
    (authorized_keys : Bytes → Option Bytes)
    (authorized : authorized_keys (c.sha256 (public_key_bytes c client_sign))
      ≡ some (public_key_bytes c client_sign))
    (cached : Bool) (lookup_server_pubkey : ServerHello → Result HandshakeError (Option Bytes))
    (accept_server_pubkey : ServerHello → Bytes → Result HandshakeError (Unit {0}))
    (found : (h : ServerHello)
      → lookup_server_pubkey h
        ≡ ok (if cached then some (public_key_bytes c server_sign) else none))
    (accepted : (h : ServerHello) → accept_server_pubkey h (public_key_bytes c server_sign) ≡ ok tt)
    (client_kp server_kp : c.Ed25519KeyPair) (client_unique server_unique : ℕ)
    (client_fits : client_unique < 2 ^ 64) (server_fits : server_unique < 2 ^ 64)
    (client_now server_now : ℕ) (client_accepting server_accepting : List Accepting) where
  abbrev client_side : Handshake (ClientStream c)
  client_side =
      new_with_server_pubkey_lookup_inner c client_sign lookup_server_pubkey accept_server_pubkey
        (some client_kp) (ok client_unique) client_now client_accepting

  abbrev server_side : Handshake (ServerStream c)
  server_side =
      new_inner c server_sign authorized_keys (some server_kp) (ok server_unique) server_now
        server_accepting

  -- Taking turns, the two get as far as these bytes, and on these bytes both handshakes succeed.
  pub record Connected : Type 0 where
    pub from_client : Bytes
    pub from_server : Bytes
    pub client_stream : ClientStream c
    pub server_stream : ServerStream c
    pub exchanged : rounds client_side server_side 5 ≡ (from_client, from_server)
    pub client_run :
        client_side (open_channel (incoming from_server) [])
        ≡ some (ok client_stream, open_channel [] from_client)
    pub server_run :
        server_side (open_channel (incoming from_client) [])
        ≡ some (ok server_stream, open_channel [] from_server)

  abbrev made_server_hello : ServerHello
  made_server_hello =
      Server.Run.own_hello c server_sign authorized_keys server_unique
        (record { key_pair = server_kp; sign_counter = 0 })

  abbrev made_client_hello : ClientHello
  made_client_hello =
      Client.Run.own_hello c client_sign lookup_server_pubkey accept_server_pubkey client_unique
        (record { key_pair = client_kp; sign_counter = 0 })

  made_server_hello-IsServerHello : IsServerHello made_server_hello
  unfolding PacketKey.public_key_bytes
  made_server_hello-IsServerHello = record {
    unique_fits = server_fits;
    length_digest = laws.length-sha256 _;
    length_key = laws.length-ed25519_public_key server_kp;
  }

  made_client_hello-IsClientHello : IsClientHello made_client_hello
  unfolding PacketKey.public_key_bytes
  made_client_hello-IsClientHello = record {
    unique_fits = client_fits;
    length_digest = laws.length-sha256 _;
    length_key = laws.length-ed25519_public_key client_kp;
  }

  small_key : length (public_key_bytes c server_sign) ≤ 30033
  small_key = length-public_key_bytes c laws server_sign server_signs

  found_known :
      (b : Bool)
      → ◌≡◌ {A = Result HandshakeError (Option Bytes)}
          (ok (if b then some (public_key_bytes c server_sign) else none))
          (ok (
            known c client_sign server_sign authorized_keys mode lookup_server_pubkey
              accept_server_pubkey small_key b))
  found_known true = refl
  found_known false = refl

  same_server_verifier :
      server_verifier c client_sign lookup_server_pubkey accept_server_pubkey
        (public_key_bytes c server_sign)
      ≡ verifier c server_sign
  unfolding verifier new_verify
  same_server_verifier =
      ap
        (λ (q : Bool). record {
          public_key_bundle = public_key_bytes c server_sign;
          quantum_insecure = q;
        })
        (sym mode)

  -- The packets of the two, each with what the other side makes of it.
  record Packets : Type 0 where
    server_wire : Bytes
    client_wire : Bytes
    signature : Bytes
    for_client :
        HonestClient.IsHonest c client_sign server_sign authorized_keys mode lookup_server_pubkey
          accept_server_pubkey small_key cached made_server_hello made_client_hello server_wire
          client_wire signature
    for_server :
        HonestServer.IsHonest c server_sign client_sign authorized_keys mode server_unique
          made_client_hello client_wire
    made : serialize_unsigned (server_hello made_server_hello) ≡ ok server_wire
    signed : ConnKey.sign_detached c server_sign (server_wire ++ client_wire) ≡ ok signature

  complete_read :
      (sig : Bytes)
      → length sig ≡ conn_signature_len c client_sign.quantum_insecure
      → (deserialize c 0 0
          (type_server_complete ∷ sig)
          none
          none
          none
          client_sign.quantum_insecure).0
        ≡ ok (server_complete sig)
  unfolding serialize_unsigned
  complete_read sig len =
      let (wire, made, read) =
        deserialize-serialize_unsigned c 0 0 none none none client_sign.quantum_insecure
          (server_complete sig) len in
      ap (λ (w : Bytes). (deserialize c 0 0 w none none none client_sign.quantum_insecure).0)
        (ok-injective made)
      ∙ ap (λ r. r.0) read

  packets : Packets
  unfolding PacketKey.public_key_bytes
  packets =
      let (server_wire, made, read) =
        deserialize-serialize_unsigned c 0 0 none none none client_sign.quantum_insecure
          (server_hello made_server_hello) made_server_hello-IsServerHello in
      let (client_wire, body, shape, ser, de, peek, small) =
        hello_signed c laws client_sign client_signs server_unique made_client_hello
          made_client_hello-IsClientHello in
      let (sig, signed, valid, len, fits) =
        detached c laws server_sign server_signs (server_wire ++ client_wire) in
      record {
        server_wire = server_wire;
        client_wire = client_wire;
        signature = sig;
        for_client = record {
          parsed = ap (λ r. r.0) read;
          found = found made_server_hello ∙ found_known cached;
          digest = refl;
          accepted = accepted made_server_hello;
          serialized = ser;
          complete = complete_read sig (len ∙ ap (conn_signature_len c) mode);
          valid =
              ap (λ (v : ConnVerify). verify_detached c v sig (server_wire ++ client_wire))
                same_server_verifier
              ∙ valid;
          small = omega (
            arith,
            serialize_unsigned-length made_server_hello server_wire made_server_hello-IsServerHello
                made,
          );
          small_complete = fits;
        };
        for_server = record {
          body = body;
          shape = shape;
          known = authorized;
          accepted = de;
          peeked = peek;
          small = omega (arith, small);
        };
        made = made;
        signed = signed;
      }

  abbrev replied : Bytes
  replied = answers c server_sign client_sign authorized_keys mode cached

  -- Where signatures are as the library documents, a client and a server in the same mode connect. They
  -- take turns: in each round, a side gets what the other had written before it, and goes on until it
  -- needs more. After five rounds both have written all, and on that both handshakes succeed, with
  -- nothing left over. This is so if the server has the client's key, the client's lookup has the
  -- server's key or none, and its callback accepts that key. ML-DSA signs with both keys, and its
  -- signatures and public keys have at most 30000 bytes.
  pub honest-Connected : Connected
  honest-Connected =
      let p = packets in
      let last = encode (type_server_complete ∷ p.signature) in
      let (s, client_run) =
        client_runs c client_sign server_sign authorized_keys mode lookup_server_pubkey
          accept_server_pubkey small_key cached made_server_hello client_kp client_unique client_now
          client_accepting p.server_wire p.client_wire p.signature p.for_client in
      let (t, server_run) =
        server_runs c server_sign client_sign authorized_keys mode server_unique made_client_hello
          p.client_wire p.for_server cached server_kp server_now server_accepting p.server_wire
          p.signature p.made p.signed in
      let client_ran = on client_side _ _ (three (encode p.server_wire) replied last) client_run in
      let server_ran = on server_side _ _ (two (asks cached) (encode p.client_wire)) server_run in
      record {
        from_client = asks cached ++ encode p.client_wire;
        from_server = (encode p.server_wire ++ replied) ++ last;
        client_stream = s;
        server_stream = t;
        exchanged =
            exchanged c client_sign server_sign authorized_keys mode lookup_server_pubkey
              accept_server_pubkey small_key cached made_server_hello client_kp client_unique
              client_now client_accepting p.server_wire p.client_wire p.signature p.for_client
              server_unique p.for_server server_kp server_now server_accepting p.made s t client_ran
              server_ran;
        client_run = client_ran;
        server_run = server_ran;
      }
