-- ===== src/ConnKey/Load.antt =====
-- `ConnSign` of src/lib.rs through its key file: `write_to_file`, then `from_file`.
use axsh.Prelude.{◌^◌, ◌<◌, ◌≡◌, refl, Bool, false, Bytes, length, some, ok}
use axsh.Crypto.{Crypto, CryptoLaws}
use axsh.Bundle.Private.{decode_conn_private_key_bundle-encode}
use axsh.ConnKey.{ConnSign, new_sign, from_bytes, file_bytes, build}

module _ (c : Crypto) (laws : CryptoLaws c) where
  -- A generated key whose two parts fit the length fields can be written; reading the file gives the
  -- same signer back, and the builder gives it in the mode it was asked for.
  pub from_bytes-file_bytes :
      (k : c.MlDsaKeyPair) (e : c.Ed25519KeyPair) (q : Bool)
      → length (c.ml_dsa_to_pkcs8 k) < 2 ^ 32
      → length (c.ed25519_to_pkcs8 e) < 2 ^ 32
      → (s : ConnSign c) × (file : Bytes) × (new_sign c (some k) (some e) ≡ ok s)
        × (file_bytes c s ≡ ok file)
        × (from_bytes c file ≡ ok s)
        × (build c q file ≡ ok (record s { quantum_insecure = q }))
  unfolding new_sign file_bytes build
  from_bytes-file_bytes k e q hk he =
      let (file, written, parsed) = decode_conn_private_key_bundle-encode _ _ hk he in
      let loaded : from_bytes c file ≡ ok signer =
        unfold from_bytes in rw (parsed, laws.ml_dsa_pkcs8 k, laws.ed25519_pkcs8 e) in
      (signer, file, refl, rw written, loaded, rw loaded)
    where
      signer : ConnSign c
      signer = record {
        ml_dsa_key_pair = k;
        ed25519_key_pair = e;
        ml_dsa_pkcs8 = c.ml_dsa_to_pkcs8 k;
        ed25519_pkcs8 = c.ed25519_to_pkcs8 e;
        quantum_insecure = false;
      }
