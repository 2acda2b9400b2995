-- ===== src/KeyFile/Lines.antt =====
-- src/lib.rs: the lines of authorized_keys and known_hosts, written and parsed.
use axsh.Prelude.{
  ◌≤◌, ◌≡◌, ◌≢◌, refl, true, false, Bytes, IsByte, All, length, is_empty, [], ◌∷◌, ◌++◌, not, arith,
  some, ok, ◌==◌,
}
use axsh.Base64.{encode_base64}
use axsh.Base64.RoundTrip.{length-encode_base64, decode_base64-encode_base64}
use axsh.KeyFile.{
  space, conn_authorized_key_kind, split_once, format_authorized_conn_key,
  parse_authorized_conn_key, format_known_host, parse_known_host,
}

abbrev pub NoSpace : Bytes → Type 0
NoSpace = All (λ b. b ≢ space)

split_once-append : (xs ys : Bytes) → NoSpace xs → split_once (xs ++ (space ∷ ys)) ≡ some (xs, ys)
unfolding split_once
split_once-append [] ys h = refl
split_once-append (x ∷ xs) ys h =
    let other : (x == space) ≡ false = ground arith in rw (other, split_once-append xs ys h.1)

split_kind :
    (ys : Bytes)
    → split_once (conn_authorized_key_kind ++ (space ∷ ys)) ≡ some (conn_authorized_key_kind, ys)
unfolding split_once
split_kind ys = refl

filled : (xs : Bytes) → 1 ≤ length xs → not (is_empty xs) ≡ true
filled [] h = absurd (omega arith)
filled (x ∷ xs) h = refl

-- Parsing the line of a public key that is not empty gives the key.
pub parse_authorized_conn_key-format :
    (key : Bytes)
    → All IsByte key
    → 1 ≤ length key
    → parse_authorized_conn_key (format_authorized_conn_key key) ≡ ok key
unfolding parse_authorized_conn_key format_authorized_conn_key
parse_authorized_conn_key-format key b h =
    let some_text : not (is_empty (encode_base64 key)) ≡ true =
      filled (encode_base64 key) (omega (arith, length-encode_base64 key)) in
    rw (split_kind (encode_base64 key), some_text, decode_base64-encode_base64 key b)

-- Parsing the line of a host and a public key, neither empty, and the host without a space, gives the
-- host and the key.
pub parse_known_host-format :
    (host key : Bytes)
    → NoSpace host
    → 1 ≤ length host
    → All IsByte key
    → 1 ≤ length key
    → parse_known_host (format_known_host host key) ≡ ok (host, key)
unfolding parse_known_host format_known_host
parse_known_host-format host key s n b h = rw (
  split_once-append host (format_authorized_conn_key key) s,
  filled host n,
  parse_authorized_conn_key-format key b h,
)
