-- ===== src/ConnKey/Sign.antt =====
-- What `ConnSign` of src/lib.rs signs, its own verifier accepts.
use axsh.Prelude.{◌≡◌, refl, Bool, true, false, Bytes, [], ◌++◌, ==_refl, if◌then◌else◌, some, ok}
use axsh.Crypto.{Crypto, CryptoLaws}
use axsh.Bundle.Public.{decode_conn_public_key-encode_conn_public_key}
use axsh.ConnKey.{
  ConnSign, signature, sign, sign_prefixed, sign_detached, verifier, verify, verify_prefixed,
  verify_detached,
}
use axsh.ConnKey.Verify.{Genuine, IsSigned, verify_iff, verify_prefixed_iff}

module _ (c : Crypto) (laws : CryptoLaws c) (s : ConnSign c) where
  -- The bytes of a signature, given its ML-DSA part.
  abbrev signed_bytes : Bytes → Bytes → Bytes
  signed_bytes ml d = (if s.quantum_insecure then [] else ml) ++ c.ed25519_sign s.ed25519_key_pair d

  signature_lem :
      (d ml : Bytes)
      → c.ml_dsa_sign s.ml_dsa_key_pair d ≡ some ml
      → signature c s d ≡ ok (signed_bytes ml d)
  unfolding signature
  signature_lem d ml e = rw (e, laws.length-ml_dsa_sign s.ml_dsa_key_pair d ml e, ==_refl)

  Genuine-signed_bytes :
      (q : Bool) (d ml : Bytes)
      → c.ml_dsa_sign s.ml_dsa_key_pair d ≡ some ml
      → Genuine c q
          (c.ml_dsa_public_key s.ml_dsa_key_pair)
          (c.ed25519_public_key s.ed25519_key_pair)
          ((if q then [] else ml) ++ c.ed25519_sign s.ed25519_key_pair d)
          d
  Genuine-signed_bytes true d ml e =
      (laws.length-ed25519_sign s.ed25519_key_pair d, laws.ed25519_verify-sign s.ed25519_key_pair d)
  Genuine-signed_bytes false d ml e = (
    ml,
    c.ed25519_sign s.ed25519_key_pair d,
    refl,
    laws.length-ml_dsa_sign s.ml_dsa_key_pair d ml e,
    laws.length-ed25519_sign s.ed25519_key_pair d,
    laws.ml_dsa_verify-sign s.ml_dsa_key_pair d ml e,
    laws.ed25519_verify-sign s.ed25519_key_pair d,
  )

  -- The signer's verifier takes the signature of any message that ML-DSA signs.
  pub IsSigned-signature :
      (d ml : Bytes)
      → c.ml_dsa_sign s.ml_dsa_key_pair d ≡ some ml
      → (sig : Bytes) × (signature c s d ≡ ok sig) × IsSigned c (verifier c s) sig d
  unfolding verifier
  IsSigned-signature d ml e = (
    signed_bytes ml d,
    signature_lem d ml e,
    record {
      der = c.ml_dsa_public_key s.ml_dsa_key_pair;
      key = c.ed25519_public_key s.ed25519_key_pair;
      decoded =
          decode_conn_public_key-encode_conn_public_key _ _
            (laws.length-ml_dsa_public_key s.ml_dsa_key_pair)
            (laws.length-ed25519_public_key s.ed25519_key_pair);
      genuine = Genuine-signed_bytes s.quantum_insecure d ml e;
    },
  )

  -- `sign`, `sign_detached` and `sign_prefixed` succeed where ML-DSA signs, and the verifier with the
  -- signer's public key and mode returns the message, accepts the detached signature, and returns the
  -- message under the same prefix.
  pub conn_verify-sign :
      (prefix d ml : Bytes)
      → c.ml_dsa_sign s.ml_dsa_key_pair (prefix ++ d) ≡ some ml
      → (sig : Bytes) × (sign c s (prefix ++ d) ≡ ok (sig ++ (prefix ++ d)))
        × (sign_detached c s (prefix ++ d) ≡ ok sig)
        × (sign_prefixed c s prefix d ≡ ok (sig ++ d))
        × (verify c (verifier c s) (sig ++ (prefix ++ d)) ≡ some (prefix ++ d))
        × (verify_detached c (verifier c s) sig (prefix ++ d) ≡ true)
        × (verify_prefixed c (verifier c s) prefix (sig ++ d) ≡ some d)
  unfolding sign sign_prefixed sign_detached verify_detached
  conn_verify-sign prefix d ml e =
      let (sig, made, signed) = IsSigned-signature (prefix ++ d) ml e in
      let whole : verify c (verifier c s) (sig ++ (prefix ++ d)) ≡ some (prefix ++ d) =
        (verify_iff c (verifier c s) (sig ++ (prefix ++ d)) (prefix ++ d)).1 (sig, refl, signed) in
      (
        sig,
        rw made,
        made,
        rw made,
        whole,
        rw whole,
        (verify_prefixed_iff c (verifier c s) prefix (sig ++ d) d).1 (sig, refl, signed),
      )
