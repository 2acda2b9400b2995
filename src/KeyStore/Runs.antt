-- ===== src/KeyStore/Runs.antt =====
-- Runs of the functions on key files, and the theorems at their inputs.
use axsh.Prelude.{◌≡◌, refl, true, Bytes, [], ◌∷◌, ◌++◌, some, ok, err, arith}
use axsh.Base64.{codes, decode_base64, decode_chunks, decode_char}
use axsh.Crypto.Toy.{toy, seal}
use axsh.KeyFile.{
  parse_known_host, parse_authorized_conn_key, split_once, format_known_host,
  format_authorized_conn_key,
}
use axsh.KeyStore.Text.{
  is_whitespace, trim, trim_start, trim_end, split, strip_cr, ended, lines, word_count,
}
use axsh.KeyStore.Load.{
  by_digest, several_entries, holds, duplicate, get, load_line, load_lines, load_known_hosts,
  load_authorized_keys, append_known_host, public_key_of, public_key_line, public_key_lines,
  load_public_key,
}
use axsh.KeyStore.Added.{IsHost, load_known_hosts-append_known_host}
use axsh.KeyStore.Fingerprint.{load_public_key-format}
use axsh.KeyStore.Errors.{Blamed, Distinct, load_known_hosts_err_iff, load_authorized_keys-ByDigest}

-- A comment, an empty line, an entry for `a` and one for `b` without a newline behind it.
abbrev known : Bytes
known = codes "# hosts\n\n  a mldsa-ed25519 Zg==\r\nb mldsa-ed25519 Zm9v"

known_loaded :
    load_known_hosts (holds known) ≡ ok ((codes "b", codes "foo") ∷ ((codes "a", codes "f") ∷ []))
unfolding load_known_hosts load_lines load_line lines ended strip_cr split trim trim_start trim_end
    is_whitespace parse_known_host parse_authorized_conn_key split_once decode_base64 decode_chunks
    decode_char get
known_loaded = refl

sample-IsHost : IsHost (codes "h")
sample-IsHost = record {
  first = 104;
  rest = [];
  shape = refl;
  word = unfold is_whitespace in (refl, tt);
  not_hash = refl;
}

load_known_hosts-append_known_host_example :
    (text : Bytes) × (append_known_host (holds known) true (codes "h") (1 ∷ []) ≡ ok text)
    × (load_known_hosts (holds text)
        ≡ ok ((codes "h", 1 ∷ []) ∷ ((codes "b", codes "foo") ∷ ((codes "a", codes "f") ∷ []))))
load_known_hosts-append_known_host_example =
    load_known_hosts-append_known_host (codes "h") (1 ∷ []) sample-IsHost (omega arith, tt)
      (omega arith) (holds known) _ known_loaded (unfold get in refl)

-- The third line has the host of the first.
abbrev twice : Bytes
twice = codes "a mldsa-ed25519 Zg==\n#\na mldsa-ed25519 Zm9v\n"

twice_loaded : load_known_hosts (holds twice) ≡ err (duplicate 3)
unfolding load_known_hosts load_lines load_line lines ended strip_cr split trim trim_start trim_end
    is_whitespace parse_known_host parse_authorized_conn_key split_once decode_base64 decode_chunks
    decode_char get
twice_loaded = refl

load_known_hosts_err_iff_example : Blamed parse_known_host 0 [] (lines twice) (duplicate 3)
load_known_hosts_err_iff_example = (load_known_hosts_err_iff twice (duplicate 3)).0 twice_loaded

abbrev authorized : Bytes
authorized = codes "mldsa-ed25519 Zg==\n"

authorized_loaded :
    load_authorized_keys toy (holds authorized) ≡ ok ((seal 31 (codes "f"), codes "f") ∷ [])
unfolding load_authorized_keys load_lines load_line lines ended strip_cr split trim trim_start
    trim_end is_whitespace parse_authorized_conn_key split_once decode_base64 decode_chunks
    decode_char get
authorized_loaded = refl

load_authorized_keys-ByDigest_example :
    ((digest key : Bytes)
      → get digest ((seal 31 (codes "f"), codes "f") ∷ []) ≡ some key
      → digest ≡ seal 31 key)
    × Distinct (by_digest toy) ((seal 31 (codes "f"), codes "f") ∷ [])
load_authorized_keys-ByDigest_example =
    load_authorized_keys-ByDigest toy (holds authorized) ((seal 31 (codes "f"), codes "f") ∷ [])
      authorized_loaded

fingerprint_loaded : load_public_key (holds known) ≡ err several_entries
unfolding load_public_key public_key_lines public_key_line public_key_of word_count lines ended
    strip_cr split trim trim_start trim_end is_whitespace parse_known_host parse_authorized_conn_key
    split_once decode_base64 decode_chunks decode_char
fingerprint_loaded = refl

load_public_key-format_example :
    (load_public_key (holds (format_authorized_conn_key (1 ∷ []) ++ (10 ∷ []))) ≡ ok (1 ∷ []))
    × (load_public_key (holds (format_known_host (codes "h") (1 ∷ []) ++ (10 ∷ []))) ≡ ok (1 ∷ []))
load_public_key-format_example =
    load_public_key-format (1 ∷ []) (omega arith, tt) (omega arith) (codes "h") sample-IsHost
