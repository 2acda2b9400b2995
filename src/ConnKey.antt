-- ===== src/ConnKey.antt =====
-- src/lib.rs: `ConnSign`, its builder and `ConnVerify`, the long-term keys with two signatures.
pub mod Verify
pub mod Sign
pub mod Load
mod Runs
use axsh.Prelude.{ℕ, ◌+◌, Bool, true, false, Bytes, length, take, drop, [], ◌∷◌, ◌++◌}
use axsh.Prelude.{
  ltb, ◌==◌, if◌then◌else◌, Option, none, some, Result, ok, err, ◌>>=◌, map_err, ok_or,
}
use axsh.Crypto.{Crypto}
use axsh.Bundle.{ed25519_signature_len, BundleError, encode_conn_public_key, decode_conn_public_key}
use axsh.Bundle.{encode_conn_private_key_bundle, decode_conn_private_key_bundle}

-- `unspecified` is the error of a failed call of aws-lc-rs, and `wrong_length` the failing
-- `assert_eq!` of `signature`.
pub data KeyError : Type 0 where
  bundle : BundleError → KeyError
  unspecified wrong_length : KeyError

pub record ConnVerify : Type 0 where
  pub public_key_bundle : Bytes
  pub quantum_insecure : Bool

-- `ConnVerify::new`
unfoldable pub new_verify : Bytes → ConnVerify
new_verify b = record { public_key_bundle = b; quantum_insecure = false }

module _ (c : Crypto) where
  open c use {MlDsaKeyPair, Ed25519KeyPair}

  unfoldable pub conn_signature_len : Bool → ℕ
  conn_signature_len quantum_insecure =
      if quantum_insecure
      then ed25519_signature_len
      else c.ml_dsa_signature_len + ed25519_signature_len

  pub record ConnSign : Type 0 where
    pub ml_dsa_key_pair : MlDsaKeyPair
    pub ed25519_key_pair : Ed25519KeyPair
    pub ml_dsa_pkcs8 : Bytes
    pub ed25519_pkcs8 : Bytes
    pub quantum_insecure : Bool

  -- `ConnSign::new`, where the arguments are the outcomes of the two `generate` calls.
  unfoldable pub new_sign : Option MlDsaKeyPair → Option Ed25519KeyPair → Result KeyError ConnSign
  new_sign ml_dsa_generated ed25519_generated = do
    ml_dsa_key_pair ← ok_or ml_dsa_generated unspecified
    ed25519_key_pair ← ok_or ed25519_generated unspecified
    ok (record {
      ml_dsa_key_pair = ml_dsa_key_pair;
      ed25519_key_pair = ed25519_key_pair;
      ml_dsa_pkcs8 = c.ml_dsa_to_pkcs8 ml_dsa_key_pair;
      ed25519_pkcs8 = c.ed25519_to_pkcs8 ed25519_key_pair;
      quantum_insecure = false;
    })

  unfoldable pub from_bytes : Bytes → Result KeyError ConnSign
  from_bytes bytes = do
    (ml_dsa_pkcs8, ed25519_pkcs8) ← map_err bundle (decode_conn_private_key_bundle bytes)
    ml_dsa_key_pair ← ok_or (c.ml_dsa_from_pkcs8 ml_dsa_pkcs8) unspecified
    ed25519_key_pair ← ok_or (c.ed25519_from_pkcs8 ed25519_pkcs8) unspecified
    ok (record {
      ml_dsa_key_pair = ml_dsa_key_pair;
      ed25519_key_pair = ed25519_key_pair;
      ml_dsa_pkcs8 = ml_dsa_pkcs8;
      ed25519_pkcs8 = ed25519_pkcs8;
      quantum_insecure = false;
    })

  -- `ConnSignBuilder::from_file` on the bytes of the file.
  unfoldable pub build : Bool → Bytes → Result KeyError ConnSign
  build quantum_insecure bytes = do
    cs ← from_bytes bytes
    ok (record cs { quantum_insecure = quantum_insecure })

  -- The bytes that `write_to_file` writes.
  unfoldable pub file_bytes : ConnSign → Result KeyError Bytes
  file_bytes s = map_err bundle (encode_conn_private_key_bundle s.ml_dsa_pkcs8 s.ed25519_pkcs8)

  unfoldable pub public_key_bytes : ConnSign → Bytes
  public_key_bytes s =
      encode_conn_public_key (c.ml_dsa_public_key s.ml_dsa_key_pair)
        (c.ed25519_public_key s.ed25519_key_pair)

  -- `signature`, with the ML-DSA signature made also where it is not used.
  unfoldable pub signature : ConnSign → Bytes → Result KeyError Bytes
  signature s data' = do
    ml_dsa_sig ← ok_or (c.ml_dsa_sign s.ml_dsa_key_pair data') unspecified
    let ed25519_sig = c.ed25519_sign s.ed25519_key_pair data'
    if length ml_dsa_sig == c.ml_dsa_signature_len
        then ok ((if s.quantum_insecure then [] else ml_dsa_sig) ++ ed25519_sig)
        else err wrong_length

  unfoldable pub sign_detached : ConnSign → Bytes → Result KeyError Bytes
  sign_detached = signature

  unfoldable pub sign : ConnSign → Bytes → Result KeyError Bytes
  sign s data' = do signed ← signature s data'; ok (signed ++ data')

  unfoldable pub sign_prefixed : ConnSign → Bytes → Bytes → Result KeyError Bytes
  sign_prefixed s prefix data' = do signed ← signature s (prefix ++ data'); ok (signed ++ data')

  -- `peer_verifier`
  unfoldable pub peer_verifier : ConnSign → Bytes → ConnVerify
  unfolding new_verify
  peer_verifier s pubkey = record (new_verify pubkey) { quantum_insecure = s.quantum_insecure }

  unfoldable pub verifier : ConnSign → ConnVerify
  unfolding public_key_bytes new_verify
  verifier s = record (new_verify (public_key_bytes s)) { quantum_insecure = s.quantum_insecure }

  -- The two signature tests of `ConnVerify::verify`, and the message if they pass.
  unfoldable pub check_signatures : Bool → Bytes → Bytes → Bytes → Bytes → Option Bytes
  check_signatures quantum_insecure ml_dsa_public_key_der ed25519_public_key sig msg =
      let ed25519_test = λ (ed25519_sig : Bytes).
        if c.ed25519_verify ed25519_public_key msg ed25519_sig then some msg else none in
      if quantum_insecure
      then ed25519_test sig
      else let ml_dsa_sig = take c.ml_dsa_signature_len sig in
        let ed25519_sig = drop c.ml_dsa_signature_len sig in
        if c.ml_dsa_verify ml_dsa_public_key_der msg ml_dsa_sig
        then ed25519_test ed25519_sig
        else none

  -- `verify` once the public key bundle is decoded.
  abbrev pub verify_with : Bool → Bytes → Result BundleError (Bytes × Bytes) → Option Bytes
  verify_with quantum_insecure data' (err e) = none
  verify_with quantum_insecure data' (ok (ml_dsa_public_key_der, ed25519_public_key)) =
      let total_sig_len = conn_signature_len quantum_insecure in
      if ltb (length data') total_sig_len
      then none
      else check_signatures quantum_insecure ml_dsa_public_key_der ed25519_public_key
          (take total_sig_len data') (drop total_sig_len data')

  unfoldable pub verify : ConnVerify → Bytes → Option Bytes
  verify v data' = verify_with v.quantum_insecure data' (decode_conn_public_key v.public_key_bundle)

  -- `self.verify(&signed)?; Some(message)`
  abbrev pub after_verify : Option Bytes → Bytes → Option Bytes
  after_verify none message = none
  after_verify (some _) message = some message

  abbrev pub is_some : Option Bytes → Bool
  is_some none = false
  is_some (some _) = true

  unfoldable pub verify_detached : ConnVerify → Bytes → Bytes → Bool
  verify_detached v signature' data' = is_some (verify v (signature' ++ data'))

  unfoldable pub verify_prefixed : ConnVerify → Bytes → Bytes → Option Bytes
  verify_prefixed v prefix data' =
      let n = conn_signature_len v.quantum_insecure in
      if ltb (length data') n
      then none
      else let signature' = take n data' in
        let message = drop n data' in
        after_verify (verify v ((signature' ++ prefix) ++ message)) message
