-- ===== src/Base64/Runs.antt =====
-- The vectors of the tests in src/base64.rs, and the theorems at concrete inputs.
use axsh.Prelude.Samples.{all_bytes-All}
use axsh.Base64.RoundTrip.{decode_base64-encode_base64}
use axsh.Base64.Decoded.{IsDecoded, decode_base64-IsDecoded}
use axsh.Prelude.{◌≡◌, refl, ok, err}
use axsh.Base64.{
  codes, encode_base64, decode_base64, encode_chunk, decode_chunks, decode_char, alphabet_at,
  bad_length, invalid_padding, invalid_character,
}

encode_hello : encode_base64 (codes "hello world") ≡ codes "aGVsbG8gd29ybGQ="
unfolding encode_base64 encode_chunk alphabet_at
encode_hello = refl

decode_hello : decode_base64 (codes "aGVsbG8gd29ybGQ=") ≡ ok (codes "hello world")
unfolding decode_base64 decode_chunks decode_char
decode_hello = refl

decode_rejects :
    (decode_base64 (codes "abc") ≡ err bad_length)
    × (decode_base64 (codes "ab=c") ≡ err invalid_padding)
    × (decode_base64 (codes "!!!!") ≡ err invalid_character)
unfolding decode_base64 decode_chunks decode_char
decode_rejects = (refl, refl, refl)

decode_base64-encode_base64_example :
    decode_base64 (encode_base64 (codes "axsh")) ≡ ok (codes "axsh")
decode_base64-encode_base64_example =
    decode_base64-encode_base64 (codes "axsh") (all_bytes-All (codes "axsh") refl)

decode_base64-IsDecoded_example : IsDecoded 3 (decode_base64 (codes "YXhz"))
decode_base64-IsDecoded_example = decode_base64-IsDecoded (codes "YXhz")
