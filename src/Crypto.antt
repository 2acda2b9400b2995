-- ===== src/Crypto.antt =====
-- What src/lib.rs uses of aws-lc-rs, a third-party library: ML-DSA-44 and Ed25519 key pairs,
-- detached signatures, PKCS#8 and SHA-256. `CryptoLaws` is what its documentation promises.
pub mod Toy
use axsh.Prelude.{ℕ, ◌≤◌, ◌≡◌, Bool, true, Bytes, IsByte, All, length, Option, some}

-- A key pair comes with its randomness: a `sign` function stands for the signatures that its calls
-- return. `none` is the library's `Unspecified` error.
pub record Crypto : Type 1 where
  pub MlDsaKeyPair : Type 0
  pub Ed25519KeyPair : Type 0
  pub ml_dsa_signature_len : ℕ
  pub ml_dsa_sign : MlDsaKeyPair → Bytes → Option Bytes
  pub ml_dsa_public_key : MlDsaKeyPair → Bytes
  pub ml_dsa_verify : Bytes → Bytes → Bytes → Bool
  pub ml_dsa_to_pkcs8 : MlDsaKeyPair → Bytes
  pub ml_dsa_from_pkcs8 : Bytes → Option MlDsaKeyPair
  pub ed25519_sign : Ed25519KeyPair → Bytes → Bytes
  pub ed25519_public_key : Ed25519KeyPair → Bytes
  pub ed25519_verify : Bytes → Bytes → Bytes → Bool
  pub ed25519_to_pkcs8 : Ed25519KeyPair → Bytes
  pub ed25519_from_pkcs8 : Bytes → Option Ed25519KeyPair
  pub sha256 : Bytes → Bytes

-- Fixed lengths, correctness of signatures, and PKCS#8 as a format of keys. A verification's
-- arguments are the public key, the message and the signature.
pub record CryptoLaws (c : Crypto) : Type 0 where
  pub length-ml_dsa_sign :
      (k : c.MlDsaKeyPair) (m s : Bytes)
      → c.ml_dsa_sign k m ≡ some s
      → length s ≡ c.ml_dsa_signature_len
  pub ml_dsa_verify-sign :
      (k : c.MlDsaKeyPair) (m s : Bytes)
      → c.ml_dsa_sign k m ≡ some s
      → c.ml_dsa_verify (c.ml_dsa_public_key k) m s ≡ true
  pub length-ml_dsa_public_key : (k : c.MlDsaKeyPair) → 1 ≤ length (c.ml_dsa_public_key k)
  pub ml_dsa_pkcs8 : (k : c.MlDsaKeyPair) → c.ml_dsa_from_pkcs8 (c.ml_dsa_to_pkcs8 k) ≡ some k
  pub length-ed25519_sign : (k : c.Ed25519KeyPair) (m : Bytes) → length (c.ed25519_sign k m) ≡ 64
  pub ed25519_verify-sign :
      (k : c.Ed25519KeyPair) (m : Bytes)
      → c.ed25519_verify (c.ed25519_public_key k) m (c.ed25519_sign k m) ≡ true
  pub length-ed25519_public_key : (k : c.Ed25519KeyPair) → length (c.ed25519_public_key k) ≡ 32
  pub ed25519_pkcs8 : (k : c.Ed25519KeyPair) → c.ed25519_from_pkcs8 (c.ed25519_to_pkcs8 k) ≡ some k
  pub length-sha256 : (m : Bytes) → length (c.sha256 m) ≡ 32
  pub sha256-IsByte : (m : Bytes) → All IsByte (c.sha256 m)
  pub ed25519_public_key-IsByte : (k : c.Ed25519KeyPair) → All IsByte (c.ed25519_public_key k)
