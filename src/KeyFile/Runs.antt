-- ===== src/KeyFile/Runs.antt =====
-- Runs of the key lines of src/lib.rs, and the theorems at concrete inputs.
use axsh.Prelude.{◌≢◌, ℕ, ap, get_or, ◌≡◌, refl, Bytes, err, [], ◌∷◌, arith}
use axsh.Prelude.Samples.{all_bytes-All}
use axsh.Base64.{codes}
use axsh.KeyFile.{
  split_once, parse_authorized_conn_key, parse_known_host, format_sha256_digest, missing_host,
  missing_key_data,
}
use axsh.KeyFile.Fingerprint.{format_sha256_digest-ne}

parse_known_host-no_host : parse_known_host (codes " mldsa-ed25519 AQ==") ≡ err missing_host
unfolding parse_known_host split_once
parse_known_host-no_host = refl

-- A key without bytes is written, but not read back.
parse_authorized_conn_key-no_data :
    parse_authorized_conn_key (codes "mldsa-ed25519 ") ≡ err missing_key_data
unfolding parse_authorized_conn_key split_once
parse_authorized_conn_key-no_data = refl

format_sha256_digest-ne_example :
    format_sha256_digest (1 ∷ 2 ∷ []) ≢ format_sha256_digest (1 ∷ 3 ∷ [])
format_sha256_digest-ne_example =
    format_sha256_digest-ne (1 ∷ 2 ∷ []) (1 ∷ 3 ∷ []) (all_bytes-All (1 ∷ 2 ∷ []) refl)
      (all_bytes-All (1 ∷ 3 ∷ []) refl) refl different
  where
    second : Bytes → ℕ
    second bs = get_or bs 1 0

    different : ◌≢◌ {A = Bytes} (1 ∷ 2 ∷ []) (1 ∷ 3 ∷ [])
    different e = absurd (omega (arith, ap second e))
