-- ===== src/Server/Authentic.antt =====
-- src/server.rs: who the server accepts.
use axsh.Prelude.{
  ℕ, ◌≡◌, refl, sym, ap, ◌∙◌, Bool, Bytes, length, drop, drop-append, [], ◌∷◌, ◌++◌, Option, none,
  some, ◌==◌, ==→eq, leb, ok, bind-ok, ok_or, ok_or-ok, map_err, map_err-ok, ensure, ensure-ok,
  ok-injective,
}
use axsh.Prelude.Words.{to_be_bytes}
use mathlib.Core.Path.{subst}
use axsh.Crypto.{Crypto}
use axsh.ConnKey
use axsh.ConnKey.{ConnSign, ConnVerify, conn_signature_len}
use axsh.ConnKey.Verify.{IsSigned, IsSigned-length, verify_prefixed_iff}
use axsh.Packet.Hello.{ClientHello, decode_client_hello, not_client_hello, signed_truncated}
use axsh.Packet.Wire.{
  Packet, client_hello, type_client_hello, signed_message, peek_client_hello, verify_conn_signed,
  deserialize, deserialize_client_hello,
}
use axsh.Handshake.{packet, not_authorized}
use axsh.Server.Accept.{as_client_hello, accept_client_hello}

module _ (c : Crypto) (conn_sign : ConnSign c) (authorized_keys : Bytes → Option Bytes)
    (unique : ℕ) where
  -- The wire bytes are a hello behind a signature, by an authorized key, of it and of the nonce.
  pub record IsAuthentic (wire : Bytes) (h : ClientHello) : Type 0 where
    pub bundle : Bytes
    pub signature : Bytes
    pub body : Bytes
    pub authorized : authorized_keys h.conn_sign_public_key_sha256 ≡ some bundle
    pub shape : wire ≡ type_client_hello ∷ (signature ++ body)
    pub signed :
        IsSigned c
          (ConnKey.peer_verifier c conn_sign bundle)
          signature
          (to_be_bytes 8 unique ++ body)
    pub read : decode_client_hello body ≡ ok h

  -- What a successful peek has looked at.
  peek_sound :
      (t : ℕ) (rest : Bytes) (q : Bool) (h : ClientHello)
      → peek_client_hello c (t ∷ rest) q ≡ ok h
      → (t ≡ type_client_hello) × (decode_client_hello (drop (conn_signature_len c q) rest) ≡ ok h)
  unfolding peek_client_hello signed_message
  peek_sound t rest q h e =
      let (_, e1, f1) = bind-ok (ensure (t == type_client_hello) (not_client_hello t)) _ e in
      let (body, e2, f2) = bind-ok (signed_message rest (conn_signature_len c q)) _ f1 in
      let (_, e3, f3) =
        bind-ok (ensure (leb (conn_signature_len c q) (length rest)) signed_truncated) _ e2 in
      (==→eq t type_client_hello (ensure-ok _ _ e1), ap decode_client_hello (ok-injective f3) ∙ f2)

  -- What `deserialize` has accepted as a hello.
  deserialize_sound :
      (rest key : Bytes) (p : Packet) (h : ClientHello)
      → peek_client_hello c (type_client_hello ∷ rest) conn_sign.quantum_insecure ≡ ok h
      → authorized_keys h.conn_sign_public_key_sha256 ≡ some key
      → deserialize_client_hello c rest
          (some unique)
          (some (ConnKey.peer_verifier c conn_sign key))
          conn_sign.quantum_insecure
        ≡ ok p
      → (p ≡ client_hello h) × IsAuthentic (type_client_hello ∷ rest) h
  unfolding deserialize_client_hello verify_conn_signed
  deserialize_sound rest key p h peeked known e =
      let v = ConnKey.peer_verifier c conn_sign key in
      let (h', e1, f1) =
        bind-ok (peek_client_hello c (type_client_hello ∷ rest) conn_sign.quantum_insecure) _ e in
      let (m, e2, f2) = bind-ok (verify_conn_signed c rest unique v) _ f1 in
      let same : h' ≡ h = cc (e1, peeked) in
      let (sig, shape, signed) =
        (verify_prefixed_iff c v (to_be_bytes 8 unique) rest m).0 (ok_or-ok _ _ e2) in
      let len : length sig ≡ conn_signature_len c conn_sign.quantum_insecure =
        unfold ConnKey.peer_verifier in IsSigned-length c v sig _ signed in
      let (_, body) = peek_sound type_client_hello rest conn_sign.quantum_insecure h peeked in
      let found : drop (conn_signature_len c conn_sign.quantum_insecure) rest ≡ m =
        ap (drop (conn_signature_len c conn_sign.quantum_insecure)) shape
        ∙ drop-append (conn_signature_len c conn_sign.quantum_insecure) sig m len in
      (
        cc (f2, same),
        record {
          bundle = key;
          signature = sig;
          body = m;
          authorized = known;
          shape = ap (λ (t : Bytes). type_client_hello ∷ t) shape;
          signed = signed;
          read = ap decode_client_hello (sym found) ∙ body;
        },
      )

  -- The clauses of `deserialize` for the type byte of a hello.
  deserialize_arm :
      (rest : Bytes) (v : ConnVerify)
      → (deserialize c 0 0
          (type_client_hello ∷ rest)
          (some unique)
          (some v)
          none
          conn_sign.quantum_insecure).0
        ≡ deserialize_client_hello c rest (some unique) (some v) conn_sign.quantum_insecure
  unfolding deserialize
  deserialize_arm rest v = refl

  peek_nil : (q : Bool) (h : ClientHello) → ¬ (peek_client_hello c [] q ≡ ok h)
  unfolding peek_client_hello
  peek_nil q h e = cc e

  pub accept_client_hello-IsAuthentic :
      (wire : Bytes) (h : ClientHello)
      → accept_client_hello c conn_sign authorized_keys unique wire ≡ ok h
      → IsAuthentic wire h
  unfolding accept_client_hello
  accept_client_hello-IsAuthentic wire h e =
      let (peeked, e1, f1) =
        bind-ok (map_err packet (peek_client_hello c wire conn_sign.quantum_insecure)) _ e in
      let (key, e2, f2) =
        bind-ok (ok_or (authorized_keys peeked.conn_sign_public_key_sha256) not_authorized) _ f1 in
      let (p, e3, f3) =
        bind-ok
          (map_err packet
            (deserialize c 0 0 wire (some unique) (some (ConnKey.peer_verifier c conn_sign key))
              none conn_sign.quantum_insecure).0)
          _ f2 in
      found wire peeked key p (map_err-ok _ _ e1) (ok_or-ok _ _ e2) (map_err-ok _ _ e3) f3
    where
      found :
          (wire : Bytes) (peeked : ClientHello) (key : Bytes) (p : Packet)
          → peek_client_hello c wire conn_sign.quantum_insecure ≡ ok peeked
          → authorized_keys peeked.conn_sign_public_key_sha256 ≡ some key
          → (deserialize c 0 0 wire
              (some unique)
              (some (ConnKey.peer_verifier c conn_sign key))
              none
              conn_sign.quantum_insecure).0
            ≡ ok p
          → as_client_hello p ≡ ok h
          → IsAuthentic wire h
      found [] peeked key p e1 e2 e3 e4 = absurd (peek_nil conn_sign.quantum_insecure peeked e1)
      found (t ∷ rest) peeked key p e1 e2 e3 e4 =
          let (same, _) = peek_sound t rest conn_sign.quantum_insecure peeked e1 in
          let at3 : peek_client_hello c (type_client_hello ∷ rest) conn_sign.quantum_insecure
              ≡ ok peeked =
            ap (λ (t : ℕ). peek_client_hello c (t ∷ rest) conn_sign.quantum_insecure) (sym same)
            ∙ e1 in
          let arm : deserialize_client_hello c rest (some unique)
                (some (ConnKey.peer_verifier c conn_sign key)) conn_sign.quantum_insecure
              ≡ ok p =
            sym (deserialize_arm rest (ConnKey.peer_verifier c conn_sign key))
            ∙ ap
                (λ (t : ℕ).
                  (deserialize c 0 0 (t ∷ rest) (some unique)
                    (some (ConnKey.peer_verifier c conn_sign key)) none
                    conn_sign.quantum_insecure).0)
                (sym same)
            ∙ e3 in
          let (kind, authentic) = deserialize_sound rest key p peeked at3 e2 arm in
          let got : peeked ≡ h = ok-injective (ap as_client_hello (sym kind) ∙ e4) in
          subst (λ (t : ℕ). IsAuthentic (t ∷ rest) h) (sym same)
            (subst (IsAuthentic (type_client_hello ∷ rest)) got authentic)
