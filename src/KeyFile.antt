-- ===== src/KeyFile.antt =====
-- src/lib.rs: the lines of the key files and the fingerprints. Text is a list of character codes.
pub mod Lines
pub mod Fingerprint
mod Runs
use axsh.Prelude.{
  ℕ, Bool, Bytes, bytes_eq, is_empty, [], ◌∷◌, ◌++◌, not, ◌&&◌, Option, none, some, ◌==◌,
  if◌then◌else◌, Result, ok, err, ◌>>=◌, ◌>>◌, ensure, ok_or, map_err,
}
use axsh.Base64
use axsh.Base64.{codes, encode_base64, decode_base64}
use axsh.Crypto.{Crypto}

abbrev pub space : ℕ
space = 32

abbrev pub equals_sign : ℕ
equals_sign = 61

abbrev pub conn_authorized_key_kind : Bytes
conn_authorized_key_kind = codes "mldsa-ed25519"

-- The messages of `anyhow!` and `bail!`.
pub data LineError : Type 0 where
  missing_key_type_or_data unsupported_key_type missing_key_data : LineError
  missing_host_or_key missing_host : LineError
  base64 : Base64.Error → LineError

abbrev pub before : ℕ → Option (Bytes × Bytes) → Option (Bytes × Bytes)
before b none = none
before b (some (xs, ys)) = some (b ∷ xs, ys)

-- `split_once(' ')`
unfoldable pub split_once : Bytes → Option (Bytes × Bytes)
split_once [] = none
split_once (b ∷ rest) =
    let later = split_once rest in if b == space then some ([], rest) else before b later

unfoldable pub format_authorized_conn_key : Bytes → Bytes
format_authorized_conn_key public_key =
    conn_authorized_key_kind ++ (space ∷ encode_base64 public_key)

unfoldable pub parse_authorized_conn_key : Bytes → Result LineError Bytes
parse_authorized_conn_key line = do
  (kind, encoded) ← ok_or (split_once line) missing_key_type_or_data
  ensure (bytes_eq kind conn_authorized_key_kind) unsupported_key_type
  ensure (not (is_empty encoded)) missing_key_data
  map_err base64 (decode_base64 encoded)

unfoldable pub format_known_host : Bytes → Bytes → Bytes
format_known_host host public_key = host ++ (space ∷ format_authorized_conn_key public_key)

unfoldable pub parse_known_host : Bytes → Result LineError (Bytes × Bytes)
parse_known_host line = do
  (host, key) ← ok_or (split_once line) missing_host_or_key
  ensure (not (is_empty host)) missing_host
  public_key ← parse_authorized_conn_key key
  ok (host, public_key)

-- `trim_end_matches('=')`
unfoldable pub trim_end : Bytes → Bytes
trim_end [] = []
trim_end (b ∷ rest) =
    let trimmed = trim_end rest in if is_empty trimmed && b == equals_sign then [] else b ∷ trimmed

unfoldable pub format_sha256_digest : Bytes → Bytes
format_sha256_digest digest = codes "SHA256:" ++ trim_end (encode_base64 digest)

unfoldable pub format_sha256_fingerprint : Crypto → Bytes → Bytes
format_sha256_fingerprint c data' = format_sha256_digest (c.sha256 data')
