-- ===== src/Session/Answers.antt =====
-- src/client.rs and src/server.rs: what each side makes of an honest packet of the other.
use axsh.Prelude.{
  ℕ, ◌≤◌, ◌≡◌, refl, sym, ap, ◌∙◌, Bool, true, false, Bytes, length, length-append, ◌∷◌, ◌++◌,
  arith, none, some, ok, ok-injective,
}
use axsh.Prelude.Words.{to_be_bytes}
use axsh.Crypto.{Crypto, CryptoLaws}
use axsh.ConnKey.{
  ConnSign, conn_signature_len, sign_detached, sign_prefixed, verify_detached, verifier,
  public_key_bytes,
}
use axsh.ConnKey.Verify.{IsSigned-length, verify_iff}
use axsh.ConnKey.Sign.{IsSigned-signature}
use axsh.Packet.Hello.{ClientHello, IsClientHello, encode_client_hello}
use axsh.Packet.Lengths.{length-encode_client_hello}
use axsh.Packet.Signed.{deserialize-serialize_conn_signed}
use axsh.Packet.Wire.{
  client_hello, type_client_hello, serialize_conn_signed, deserialize, peek_client_hello,
}

-- That ML-DSA signs every message with this key, with signatures and public keys of less than 30000
-- bytes.
abbrev pub Signs : (c : Crypto) → ConnSign c → Type 0
Signs c s =
    ((m : Bytes) → (ml : Bytes) × (c.ml_dsa_sign s.ml_dsa_key_pair m ≡ some ml))
    × (c.ml_dsa_signature_len ≤ 30000)
    × (length (c.ml_dsa_public_key s.ml_dsa_key_pair) ≤ 30000)

module _ (c : Crypto) (laws : CryptoLaws c) (s : ConnSign c) (signs : Signs c s) where
  pub length-public_key_bytes : length (public_key_bytes c s) ≤ 30033
  unfolding public_key_bytes axsh.Bundle.encode_conn_public_key
  length-public_key_bytes = omega (
    arith,
    length-append (c.ml_dsa_public_key s.ml_dsa_key_pair) (c.ed25519_public_key s.ed25519_key_pair),
    laws.length-ed25519_public_key s.ed25519_key_pair,
    signs.2,
  )

  signature_len_le : (q : Bool) → conn_signature_len c q ≤ 30064
  unfolding conn_signature_len
  signature_len_le true = omega arith
  signature_len_le false = omega (arith, signs.1)

  -- The detached signature of the transcript, for a verifier with the same key and mode.
  pub detached :
      (d : Bytes)
      → (sig : Bytes) × (sign_detached c s d ≡ ok sig)
        × (verify_detached c (verifier c s) sig d ≡ true)
        × (length sig ≡ conn_signature_len c s.quantum_insecure)
        × (length sig ≤ 30064)
  unfolding sign_detached verify_detached verifier
  detached d =
      let (ml, e) = signs.0 d in
      let (sig, made, signed) = IsSigned-signature c laws s d ml e in
      let len : length sig ≡ conn_signature_len c s.quantum_insecure =
        IsSigned-length c (verifier c s) sig d signed in
      (
        sig,
        made,
        rw ((verify_iff c (verifier c s) (sig ++ d) d).1 (sig, refl, signed)),
        len,
        omega (arith, len, signature_len_le s.quantum_insecure),
      )

  -- The hello that it signs for a nonce is accepted with its key and mode.
  pub hello_signed :
      (n : ℕ) (h : ClientHello)
      → IsClientHello h
      → (wire : Bytes) × (rest : Bytes) × (wire ≡ type_client_hello ∷ rest)
        × (serialize_conn_signed c (client_hello h) s n ≡ ok wire)
        × (deserialize c 0 0 wire (some n) (some (verifier c s)) none s.quantum_insecure
            ≡ (ok (client_hello h), none))
        × (peek_client_hello c wire s.quantum_insecure ≡ ok h)
        × (length wire ≤ 30137)
  unfolding serialize_conn_signed sign_prefixed verifier
  hello_signed n h v =
      let (ml, e) = signs.0 (to_be_bytes 8 n ++ encode_client_hello h) in
      let (sig, made, signed) =
        IsSigned-signature c laws s (to_be_bytes 8 n ++ encode_client_hello h) ml e in
      let (wire, ser, de, peek) = deserialize-serialize_conn_signed c laws s 0 0 n none h ml v e in
      let shape : wire ≡ type_client_hello ∷ (sig ++ encode_client_hello h) =
        ok-injective (sym ser ∙ rw made refl) in
      let len : length sig ≡ conn_signature_len c s.quantum_insecure =
        IsSigned-length c (verifier c s) sig _ signed in
      (
        wire,
        sig ++ encode_client_hello h,
        shape,
        ser,
        de,
        peek,
        omega (
          arith,
          ap length shape,
          length-append sig (encode_client_hello h),
          len,
          signature_len_le s.quantum_insecure,
          length-encode_client_hello h v,
        ),
      )
