-- ===== src/Packet/Signed.antt =====
-- src/packet.rs: the two signed packets, `ClientHello` and `Payload`, written and read.
use axsh.Prelude.{
  All-drop, ℕ, ◌+◌, ◌≤◌, ◌≡◌, refl, sym, ap, ◌∙◌, Bool, true, Bytes, IsByte, All, length,
  length-append, drop, drop-append, ◌∷◌, ◌++◌, arith, leb, leb→le, le→leb, Option, some,
}
use axsh.Prelude.{Result, ok_or-ok, ok, bind-ok, ensure, ensure-ok, ok-injective}
use axsh.Prelude.Words.{to_be_bytes}
use mathlib.Core.Path.{subst}
use mathlib.Core.Logic.{◌↔◌}
use axsh.Crypto.{Crypto, CryptoLaws}
use axsh.ConnKey
use axsh.ConnKey.{ConnSign, ConnVerify, conn_signature_len}
use axsh.ConnKey.Verify.{IsSigned, IsSigned-length, verify_prefixed_iff}
use axsh.ConnKey.Sign.{IsSigned-signature}
use axsh.PacketKey.Delivery
use axsh.PacketKey
use axsh.PacketKey.{PacketSign, PacketVerify, max_connection_idle}
use axsh.Packet.Hello.{
  ClientHello, IsClientHello, PacketError, encode_client_hello, decode_client_hello,
}
use axsh.Packet.Inverse.{decode_client_hello_sound}
use axsh.Packet.RoundTrip.{decode_client_hello-encode_client_hello}
use axsh.Packet.Wire.{
  Packet, client_hello, payload, type_client_hello, type_payload, signed_message,
  serialize_conn_signed, serialize_packet_signed, verify_conn_signed, peek_client_hello,
  deserialize_client_hello, deserialize_payload, deserialize,
}

module _ (c : Crypto) where
  -- A `ClientHello` behind a signature of the receiver's length is found without checking it.
  pub peek_client_hello-signed :
      (q : Bool) (sig : Bytes) (h : ClientHello)
      → length sig ≡ conn_signature_len c q
      → IsClientHello h
      → peek_client_hello c (type_client_hello ∷ (sig ++ encode_client_hello h)) q ≡ ok h
  unfolding peek_client_hello signed_message
  peek_client_hello-signed q sig h len v =
      let long : leb (conn_signature_len c q) (length (sig ++ encode_client_hello h)) ≡ true =
        le→leb _ _ (omega (arith, len, length-append sig (encode_client_hello h))) in
      rw (
        long,
        drop-append (conn_signature_len c q) sig (encode_client_hello h) len,
        decode_client_hello-encode_client_hello h v,
      )

  -- What is found is behind a signature of the receiver's length.
  pub peek_client_hello_sound :
      (q : Bool) (rest : Bytes) (h : ClientHello)
      → All IsByte rest
      → peek_client_hello c (type_client_hello ∷ rest) q ≡ ok h
      → (conn_signature_len c q ≤ length rest)
        × (drop (conn_signature_len c q) rest ≡ encode_client_hello h)
        × IsClientHello h
  unfolding peek_client_hello signed_message
  peek_client_hello_sound q rest h b e =
      let n = conn_signature_len c q in
      let (body, e1, f1) = bind-ok (signed_message rest n) _ e in
      let (_, e2, f2) = bind-ok (ensure (leb n (length rest)) _) _ e1 in
      let (s, v) =
        decode_client_hello_sound (drop n rest) h (All-drop IsByte n rest b)
          (ap decode_client_hello (ok-injective f2) ∙ f1) in
      (leb→le n (length rest) (ensure-ok _ _ e2), s, v)

  -- `rest` is a hello behind a signature of it and of the server's nonce, for this verifier.
  pub record IsSignedHello (v : ConnVerify) (n : ℕ) (rest : Bytes) (h : ClientHello) : Type 0 where
    pub signature : Bytes
    pub shape : rest ≡ signature ++ encode_client_hello h
    pub signed : IsSigned c v signature (to_be_bytes 8 n ++ encode_client_hello h)
    pub fits : IsClientHello h

  IsSignedHello-verify :
      (v : ConnVerify) (n : ℕ) (rest : Bytes) (h : ClientHello)
      → IsSignedHello v n rest h
      → ConnKey.verify_prefixed c v (to_be_bytes 8 n) rest ≡ some (encode_client_hello h)
  IsSignedHello-verify v n rest h s =
      (verify_prefixed_iff c v (to_be_bytes 8 n) rest (encode_client_hello h)).1
        (s.signature, s.shape, s.signed)

  IsSignedHello-peek :
      (v : ConnVerify) (n : ℕ) (rest : Bytes) (h : ClientHello)
      → IsSignedHello v n rest h
      → peek_client_hello c (type_client_hello ∷ rest) v.quantum_insecure ≡ ok h
  IsSignedHello-peek v n rest h s =
      ap (λ (r : Bytes). peek_client_hello c (type_client_hello ∷ r) v.quantum_insecure) s.shape
      ∙ peek_client_hello-signed v.quantum_insecure s.signature h
          (IsSigned-length c v s.signature _ s.signed) s.fits

  IsSignedHello-deserialize :
      (v : ConnVerify) (n : ℕ) (rest : Bytes) (h : ClientHello)
      → IsSignedHello v n rest h
      → deserialize_client_hello c rest (some n) (some v) v.quantum_insecure ≡ ok (client_hello h)
  unfolding deserialize_client_hello verify_conn_signed
  IsSignedHello-deserialize v n rest h s =
      rw (IsSignedHello-peek v n rest h s, IsSignedHello-verify v n rest h s)

  deserialize-IsSignedHello :
      (v : ConnVerify) (n : ℕ) (rest : Bytes) (h : ClientHello)
      → All IsByte rest
      → deserialize_client_hello c rest (some n) (some v) v.quantum_insecure ≡ ok (client_hello h)
      → IsSignedHello v n rest h
  unfolding deserialize_client_hello verify_conn_signed
  deserialize-IsSignedHello v n rest h b e =
      let (h', e1, f1) =
        bind-ok (peek_client_hello c (type_client_hello ∷ rest) v.quantum_insecure) _ e in
      let (m, e2, f2) = bind-ok (verify_conn_signed c rest n v) _ f1 in
      let same : h' ≡ h = cc f2 in
      let (_, body, fits) = peek_client_hello_sound v.quantum_insecure rest h' b e1 in
      let (sig, shape, signed) =
        (verify_prefixed_iff c v (to_be_bytes 8 n) rest m).0 (ok_or-ok _ _ e2) in
      let len = IsSigned-length c v sig _ signed in
      let found : m ≡ encode_client_hello h =
        sym (drop-append (conn_signature_len c v.quantum_insecure) sig m len)
        ∙ ap (drop (conn_signature_len c v.quantum_insecure)) (sym shape)
        ∙ body
        ∙ ap encode_client_hello same in
      record {
        signature = sig;
        shape = shape ∙ ap (λ (t : Bytes). sig ++ t) found;
        signed = subst (λ (t : Bytes). IsSigned c v sig (to_be_bytes 8 n ++ t)) found signed;
        fits = subst IsClientHello same fits;
      }

  -- With a nonce and a verifier at hand, the bytes of a `ClientHello` packet are accepted exactly when
  -- they are the hello's encoding behind a signature of the nonce and that encoding, and the packet
  -- verifier is left alone.
  pub deserialize-client_hello_iff :
      (now later n : ℕ) (v : ConnVerify) (pv : Option PacketVerify) (rest : Bytes) (h : ClientHello)
      → All IsByte rest
      → (deserialize c now later (type_client_hello ∷ rest) (some n) (some v) pv v.quantum_insecure
          ≡ (ok (client_hello h), pv))
        ↔ IsSignedHello v n rest h
  unfolding deserialize
  deserialize-client_hello_iff now later n v pv rest h b = (
    λ e.
        deserialize-IsSignedHello v n rest h b
          (ap (λ (r : Result PacketError Packet × Option PacketVerify). r.0) e),
    λ s. rw (IsSignedHello-deserialize v n rest h s),
  )

module _ (c : Crypto) (laws : CryptoLaws c) where
  -- A hello that a client signs for the server's nonce is accepted under the same nonce by a verifier
  -- with the client's public key and mode, and `peek_client_hello` finds it too, where ML-DSA signs.
  pub deserialize-serialize_conn_signed :
      (s : ConnSign c) (now later n : ℕ) (pv : Option PacketVerify) (h : ClientHello) (ml : Bytes)
      → IsClientHello h
      → c.ml_dsa_sign s.ml_dsa_key_pair (to_be_bytes 8 n ++ encode_client_hello h) ≡ some ml
      → (wire : Bytes) × (serialize_conn_signed c (client_hello h) s n ≡ ok wire)
        × (deserialize c now later wire (some n) (some (ConnKey.verifier c s)) pv s.quantum_insecure
            ≡ (ok (client_hello h), pv))
        × (peek_client_hello c wire s.quantum_insecure ≡ ok h)
  unfolding serialize_conn_signed deserialize
  deserialize-serialize_conn_signed s now later n pv h ml fits e =
      let (sig, made, signed) =
        IsSigned-signature c laws s (to_be_bytes 8 n ++ encode_client_hello h) ml e in
      let hello : IsSignedHello c (ConnKey.verifier c s) n (sig ++ encode_client_hello h) h =
        record { signature = sig; shape = refl; signed = signed; fits = fits } in
      (
        type_client_hello ∷ (sig ++ encode_client_hello h),
        unfold ConnKey.sign_prefixed in rw made,
        unfold ConnKey.verifier in
            rw (IsSignedHello-deserialize c (ConnKey.verifier c s) n _ h hello),
        unfold ConnKey.verifier in IsSignedHello-peek c (ConnKey.verifier c s) n _ h hello,
      )

  -- A payload that a signer serialises is accepted by a verifier that holds the signer's key and
  -- counter, in time, and the two counters stay equal.
  pub deserialize-serialize_packet_signed :
      (s : PacketSign c) (v : PacketVerify) (now later : ℕ) (u : Option ℕ) (cv : Option ConnVerify)
      (q : Bool) (d : Bytes)
      → v.public_key ≡ PacketKey.public_key_bytes c s
      → v.verify_counter ≡ s.sign_counter
      → now ≤ v.last_success + max_connection_idle
      → (wire : Bytes) × ((serialize_packet_signed c (payload d) s).0 ≡ ok wire)
        × (deserialize c now later wire u cv (some v) q ≡ (
          ok (payload d),
          some (record v {
            verify_counter = (serialize_packet_signed c (payload d) s).1.sign_counter;
            last_success = later;
          }),
        ))
  unfolding serialize_packet_signed deserialize deserialize_payload
  deserialize-serialize_packet_signed s v now later u cv q d k n t =
      let (wire, made, verified) = Delivery.verify-sign c laws s v now later d k n t in
      (type_payload ∷ wire, rw made, rw verified)
