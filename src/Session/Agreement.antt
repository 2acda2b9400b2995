-- ===== src/Session/Agreement.antt =====
-- src/client.rs and src/server.rs: what a client and a server that have both completed agree on.
use axsh.Prelude.{
  ℕ, suc, ◌<◌, ◌^◌, ◌≡◌, sym, ap, ◌∙◌, Bool, Bytes, length, length-append, append-injective, List,
  ◌∷◌, ◌++◌, arith, Option, none, Result, ok, bind-ok, ok-injective, map_err, map_err-ok,
}
use axsh.Prelude.Words.{to_be_bytes}
use mathlib.Core.Path.{subst}
use axsh.Crypto.{Crypto}
use axsh.Handshake.{HandshakeError, Channel}
use axsh.ConnKey
use axsh.ConnKey.{ConnSign, ConnVerify, sign_prefixed}
use axsh.ConnKey.Verify.{IsSigned}
use axsh.PacketKey
use axsh.PacketKey.{PacketSign}
use axsh.Packet.Hello.{
  ServerHello, ClientHello, PacketError, IsServerHello, IsClientHello, key_error,
  encode_client_hello, decode_client_hello,
}
use axsh.Packet.RoundTrip.{deserialize-serialize_unsigned, decode_client_hello-encode_client_hello}
use axsh.Packet.Lengths.{
  decode_client_hello-length, length-encode_client_hello, length-encode_server_hello,
}
use axsh.Packet.Complete.{deserialize-HasLength, HasLength}
use axsh.Packet.Wire.{
  Packet, server_hello, client_hello, type_client_hello, serialize_unsigned, serialize_conn_signed,
  deserialize,
}
use axsh.Transport.{Accepting, PayloadStream, new_stream}
use axsh.Client
use axsh.Client.Run.{ClientStream}
use axsh.Server
use axsh.Server.Run.{ServerStream}

-- A hello of the server, as it is written and as it is read.
pub serialize_unsigned-length :
    (h : ServerHello) (wire : Bytes)
    → IsServerHello h
    → serialize_unsigned (server_hello h) ≡ ok wire
    → length wire ≡ 78
unfolding serialize_unsigned
serialize_unsigned-length h wire v e =
    ap length (sym (ok-injective e)) ∙ ap suc (length-encode_server_hello h v)

module _ (c : Crypto) (q : Bool) where
  deserialized-length :
      (h : ServerHello) (wire : Bytes)
      → (deserialize c 0 0 wire none none none q).0 ≡ ok (server_hello h)
      → length wire ≡ 78
  deserialized-length h wire e =
      subst (HasLength c q (length wire)) e (deserialize-HasLength c q 0 0 wire none none none)

  read_back :
      (own h : ServerHello) (wire : Bytes)
      → IsServerHello own
      → serialize_unsigned (server_hello own) ≡ ok wire
      → (deserialize c 0 0 wire none none none q).0 ≡ ok (server_hello h)
      → h ≡ own
  read_back own h wire v e p =
      let (wire', e', back) =
        deserialize-serialize_unsigned c 0 0 none none none q (server_hello own) v in
      let same : wire ≡ wire' = ok-injective (sym e ∙ e') in
      let got : ◌≡◌ {A = Result PacketError Packet} (ok (server_hello own)) (ok (server_hello h)) =
        sym (ap (λ r. r.0) back)
        ∙ ap (λ (w : Bytes). (deserialize c 0 0 w none none none q).0) (sym same)
        ∙ p in
      hello_injective (ok-injective got)
    where
      hello_injective : server_hello own ≡ server_hello h → h ≡ own
      hello_injective e = cc e

module _ (c : Crypto) where
  -- The hello of the client, as it is written and as the server has read it.
  signed_shape :
      (signer : ConnSign c) (own : ClientHello) (n : ℕ) (wire : Bytes)
      → serialize_conn_signed c (client_hello own) signer n ≡ ok wire
      → (sig : Bytes) × (wire ≡ type_client_hello ∷ (sig ++ encode_client_hello own))
  unfolding serialize_conn_signed sign_prefixed
  signed_shape signer own n wire e =
      let (signed, e1, f1) =
        bind-ok
          (map_err key_error (sign_prefixed c signer (to_be_bytes 8 n) (encode_client_hello own))) _
          e in
      let (sig, e2, f2) =
        bind-ok (ConnKey.signature c signer (to_be_bytes 8 n ++ encode_client_hello own)) _
          (map_err-ok _ _ e1) in
      (
        sig,
        sym (ok-injective f1) ∙ ap (λ (t : Bytes). type_client_hello ∷ t) (sym (ok-injective f2)),
      )

  -- The body is what stands behind the signature, however long that is.
  same_body :
      (sig sig' body : Bytes) (own h : ClientHello)
      → IsClientHello own
      → type_client_hello ∷ (sig ++ encode_client_hello own) ≡ type_client_hello ∷ (sig' ++ body)
      → decode_client_hello body ≡ ok h
      → h ≡ own
  same_body sig sig' body own h v e d =
      let tails : sig ++ encode_client_hello own ≡ sig' ++ body = cc e in
      let total = ap length tails in
      let (_, same) =
        append-injective sig sig' (encode_client_hello own) body
          (omega (
            arith,
            total,
            length-append sig (encode_client_hello own),
            length-append sig' body,
            length-encode_client_hello own v,
            decode_client_hello-length body h d,
          ))
          tails in
      ok-injective
        (sym d ∙ ap decode_client_hello (sym same) ∙ decode_client_hello-encode_client_hello own v)

-- The lengths that aws-lc-rs documents for a digest and for an Ed25519 public key.
abbrev pub HasLengths : Crypto → Type 0
HasLengths c =
    ((m : Bytes) → length (c.sha256 m) ≡ 32)
    × ((k : c.Ed25519KeyPair) → length (c.ed25519_public_key k) ≡ 32)

-- What `random_u64` returns is a `u64`.
abbrev pub Fits : Result HandshakeError ℕ → Type 0
Fits random = (n : ℕ) → random ≡ ok n → n < 2 ^ 64

module _ (c : Crypto) (lengths : HasLengths c) (client_sign : ConnSign c)
    (lookup_server_pubkey : ServerHello → Result HandshakeError (Option Bytes))
    (accept_server_pubkey : ServerHello → Bytes → Result HandshakeError (Unit {0}))
    (server_sign : ConnSign c) (authorized_keys : Bytes → Option Bytes)
    (client_random server_random : Result HandshakeError ℕ) (client_now server_now : ℕ)
    (client_accepting server_accepting : List Accepting)
    (client_channel client_final server_channel server_final : Channel) (s : ClientStream c)
    (t : ServerStream c) where
  abbrev pub ClientCompleted : Type 0
  ClientCompleted =
      Client.Completed.Completed c client_sign lookup_server_pubkey accept_server_pubkey
        client_random client_now client_accepting client_channel client_final s

  abbrev pub ServerCompleted : Type 0
  ServerCompleted =
      Server.Completed.Completed c server_sign authorized_keys server_random server_now
        server_accepting server_channel server_final t

  -- That the key which the client has accepted has signed this server's transcript, and nothing else.
  abbrev pub SignedOnly : ClientCompleted → ServerCompleted → Type 0
  SignedOnly client server =
      (signature msg : Bytes)
      → IsSigned c
          (Client.Run.server_verifier c client_sign lookup_server_pubkey accept_server_pubkey
            client.public_key)
          signature msg
      → msg ≡ server.server_hello_wire ++ server.client_hello_wire

  -- One transcript, each side's hello as the other side has made it, and transports that expect each
  -- other's packet keys.
  pub record Agree (client : ClientCompleted) (server : ServerCompleted) : Type 0 where
    pub same_server_hello : client.server_hello_wire ≡ server.server_hello_wire
    pub same_client_hello : client.client_hello_wire ≡ server.client_hello_wire
    pub server_hello :
        s.server_hello
        ≡ Server.Run.own_hello c server_sign authorized_keys server.unique server.packet_sign
    pub client_hello :
        t.client_hello
        ≡ Client.Run.own_hello c client_sign lookup_server_pubkey accept_server_pubkey client.unique
            client.packet_sign
    pub client_transport :
        (s.transport.packet_sign ≡ client.packet_sign)
        × (s.transport.peer_packet_verify ≡ PacketKey.verifier c client_now server.packet_sign)
    pub server_transport :
        (t.transport.packet_sign ≡ server.packet_sign)
        × (t.transport.peer_packet_verify ≡ PacketKey.verifier c server_now client.packet_sign)

  -- Of a client and a server that have both completed, where the key that the client has accepted
  -- has signed this server's transcript and nothing else, and where the random numbers are 64-bit
  -- ones and digests and Ed25519 public keys have 32 bytes: both have the same two hellos on the
  -- wire, each has read the other's hello as that was made, and each transport signs with its own
  -- packet key and checks with the other's, from the counter 0 on.
  pub Completed-Agree :
      Fits client_random
      → Fits server_random
      → (client : ClientCompleted) (server : ServerCompleted) → SignedOnly client server
      → Agree client server
  unfolding PacketKey.verifier PacketKey.public_key_bytes new_stream
  Completed-Agree client_fits server_fits client server only =
      let own_s =
        Server.Run.own_hello c server_sign authorized_keys server.unique server.packet_sign in
      let own_c =
        Client.Run.own_hello c client_sign lookup_server_pubkey accept_server_pubkey client.unique
          client.packet_sign in
      let s_fits : IsServerHello own_s = record {
        unique_fits = server_fits server.unique server.drawn;
        length_digest = lengths.0 _;
        length_key = lengths.1 _;
      } in
      let c_fits : IsClientHello own_c = record {
        unique_fits = client_fits client.unique client.drawn;
        length_digest = lengths.0 _;
        length_key = lengths.1 _;
      } in
      let (same_s, same_c) =
        append-injective client.server_hello_wire server.server_hello_wire client.client_hello_wire
          server.client_hello_wire
          (deserialized-length c client_sign.quantum_insecure s.server_hello
              client.server_hello_wire client.parsed
            ∙ sym (serialize_unsigned-length own_s server.server_hello_wire s_fits server.hello))
          (only client.signature _ client.signed) in
      let is_s : s.server_hello ≡ own_s =
        read_back c client_sign.quantum_insecure own_s s.server_hello server.server_hello_wire
          s_fits server.hello
          (ap (λ (w : Bytes). (deserialize c 0 0 w none none none client_sign.quantum_insecure).0)
              (sym same_s)
            ∙ client.parsed) in
      let (sig, made) =
        signed_shape c client_sign own_c s.server_hello.unique client.client_hello_wire
          client.hello in
      let is_c : t.client_hello ≡ own_c =
        same_body c sig server.authentic.signature server.authentic.body own_c t.client_hello c_fits
          (sym made ∙ same_c ∙ server.authentic.shape) server.authentic.read in
      record {
        same_server_hello = same_s;
        same_client_hello = same_c;
        server_hello = is_s;
        client_hello = is_c;
        client_transport = (
          ap (λ (p : PayloadStream c). p.packet_sign) client.transport,
          ap (λ (p : PayloadStream c). p.peer_packet_verify) client.transport
              ∙ ap (λ (h : ServerHello). PacketKey.new_verify client_now h.packet_sign_public_key)
                  is_s,
        );
        server_transport = (
          ap (λ (p : PayloadStream c). p.packet_sign) server.transport,
          ap (λ (p : PayloadStream c). p.peer_packet_verify) server.transport
              ∙ ap (λ (h : ClientHello). PacketKey.new_verify server_now h.packet_sign_public_key)
                  is_c,
        );
      }
