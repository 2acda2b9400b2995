-- ===== src/Bundle.antt =====
-- src/lib.rs: the byte formats of the bundled `ConnSign` keys, public and private.
pub mod Public
pub mod Private
mod Runs
use axsh.Prelude.{
  ℕ, ◌+◌, ◌-◌, ◌*◌, ◌^◌, Bool, not, Bytes, bytes_eq, length, take, drop, [], ◌∷◌, ◌++◌,
}
use axsh.Prelude.{ltb, ◌==◌, if◌then◌else◌, Result, ok, err, ◌>>=◌, ◌>>◌, ensure}
use axsh.Prelude.Words.{to_be_bytes, from_be_bytes}
use axsh.Base64.{codes}

abbrev pub ed25519_signature_len : ℕ
ed25519_signature_len = 64

abbrev pub ed25519_public_key_len : ℕ
ed25519_public_key_len = 32

abbrev pub sha256_digest_len : ℕ
sha256_digest_len = 32

abbrev pub conn_public_key_version : ℕ
conn_public_key_version = 1

abbrev pub conn_private_key_magic : Bytes
conn_private_key_magic = codes "AXSHCK02"

-- The messages of `bail!`; `empty` is the failing `split_first`.
pub data BundleError : Type 0 where
  public_too_short empty : BundleError
  unsupported_version : ℕ → BundleError
  ml_dsa_too_large ed25519_too_large private_too_short unsupported_format truncated : BundleError

unfoldable pub encode_conn_public_key : Bytes → Bytes → Bytes
encode_conn_public_key ml_dsa_public_key_der ed25519_public_key =
    conn_public_key_version ∷ (ml_dsa_public_key_der ++ ed25519_public_key)

-- What follows the version byte, split before the last 32 bytes.
abbrev split_public_key : ℕ → Bytes → Result BundleError (Bytes × Bytes)
split_public_key version rest =
    if not (version == conn_public_key_version)
    then err (unsupported_version version)
    else let split_at = length rest - ed25519_public_key_len in
      ok (take split_at rest, drop split_at rest)

abbrev split_first : Bytes → Result BundleError (Bytes × Bytes)
split_first [] = err empty
split_first (version ∷ rest) = split_public_key version rest

unfoldable pub decode_conn_public_key : Bytes → Result BundleError (Bytes × Bytes)
decode_conn_public_key data' =
    if ltb (length data') (1 + 1 + ed25519_public_key_len)
    then err public_too_short
    else split_first data'

-- `u32::try_from`
abbrev pub u32_try_from : ℕ → BundleError → Result BundleError ℕ
u32_try_from n e = if ltb n (2 ^ 32) then ok n else err e

unfoldable pub encode_conn_private_key_bundle : Bytes → Bytes → Result BundleError Bytes
encode_conn_private_key_bundle ml_dsa_pkcs8 ed25519_pkcs8 = do
  ml_dsa_len ← u32_try_from (length ml_dsa_pkcs8) ml_dsa_too_large
  ed25519_len ← u32_try_from (length ed25519_pkcs8) ed25519_too_large
  ok (
      conn_private_key_magic
      ++ (to_be_bytes 4 ml_dsa_len
          ++ (to_be_bytes 4 ed25519_len ++ (ml_dsa_pkcs8 ++ ed25519_pkcs8))))

unfoldable pub decode_conn_private_key_bundle : Bytes → Result BundleError (Bytes × Bytes)
decode_conn_private_key_bundle data' =
    if ltb (length data') (length conn_private_key_magic + 8)
    then err private_too_short
    else let magic = take (length conn_private_key_magic) data' in
      let rest = drop (length conn_private_key_magic) data' in
      if not (bytes_eq magic conn_private_key_magic)
      then err unsupported_format
      else let ml_dsa_len = from_be_bytes (take 4 rest) in
        let rest1 = drop 4 rest in
        let ed25519_len = from_be_bytes (take 4 rest1) in
        let rest2 = drop 4 rest1 in
        if not (length rest2 == ml_dsa_len + ed25519_len)
        then err truncated
        else ok (take ml_dsa_len rest2, drop ml_dsa_len rest2)
