-- ===== src/Bundle/Runs.antt =====
-- Runs of the key bundles of src/lib.rs, and the theorems at concrete inputs.
use axsh.Prelude.{◌≡◌, refl, ◌≤◌, Bytes, length, [], ◌∷◌, ◌++◌, ok, arith}
use mathlib.Core.Logic.{◌↔◌}
use axsh.Base64.{codes}
use axsh.Prelude.Words.{from_be_bytes}
use axsh.Crypto.Toy.{zeros}
use axsh.Bundle.{
  encode_conn_public_key, decode_conn_public_key, encode_conn_private_key_bundle,
  decode_conn_private_key_bundle,
}
use axsh.Bundle.Public.{decode_conn_public_key_iff}
use axsh.Bundle.Private.{decode_conn_private_key_bundle-encode}

-- The bundle of the parts `9, 8` and `7`.
abbrev private_bundle : Bytes
private_bundle = codes "AXSHCK02" ++ (0 ∷ 0 ∷ 0 ∷ 2 ∷ 0 ∷ 0 ∷ 0 ∷ 1 ∷ 9 ∷ 8 ∷ 7 ∷ [])

decode_private_bundle : decode_conn_private_key_bundle private_bundle ≡ ok (9 ∷ 8 ∷ [], 7 ∷ [])
unfolding decode_conn_private_key_bundle from_be_bytes
decode_private_bundle = refl

decode_conn_public_key_iff_example :
    (decode_conn_public_key (zeros 40) ≡ ok (zeros 8, zeros 32)) ↔ (
      (zeros 40 ≡ encode_conn_public_key (zeros 8) (zeros 32))
      × (1 ≤ length (zeros 8))
      × (length (zeros 32) ≡ 32))
decode_conn_public_key_iff_example = decode_conn_public_key_iff (zeros 40) (zeros 8) (zeros 32)

decode_conn_private_key_bundle-encode_example :
    (d : Bytes) × (encode_conn_private_key_bundle (9 ∷ 8 ∷ []) (7 ∷ []) ≡ ok d)
    × (decode_conn_private_key_bundle d ≡ ok (9 ∷ 8 ∷ [], 7 ∷ []))
decode_conn_private_key_bundle-encode_example =
    decode_conn_private_key_bundle-encode (9 ∷ 8 ∷ []) (7 ∷ []) (omega arith) (omega arith)
