-- ===== src/Bundle/Public.antt =====
-- The public key bundle of src/lib.rs: the decoder accepts what the encoder writes, and no more.
use axsh.Prelude.{
  suc, ◌+◌, ◌-◌, ◌≤◌, ◌≡◌, refl, Bytes, length, length-append, length-drop, take, drop, take-append,
  drop-append, take-append-drop,
}
use axsh.Prelude.{[], ◌∷◌, ◌++◌, arith, ltb, false, ok}
use mathlib.Core.Logic.{◌↔◌}
use axsh.Bundle.{encode_conn_public_key, decode_conn_public_key}

pub decode_conn_public_key-encode_conn_public_key :
    (der key : Bytes)
    → 1 ≤ length der
    → length key ≡ 32
    → decode_conn_public_key (encode_conn_public_key der key) ≡ ok (der, key)
unfolding decode_conn_public_key encode_conn_public_key
decode_conn_public_key-encode_conn_public_key der key h k =
    let n : length (der ++ key) ≡ length der + length key = length-append der key in
    let long : ltb (suc (length (der ++ key))) 34 ≡ false = ground (arith, n) in
    let split : length (der ++ key) - 32 ≡ length der = omega (arith, n) in
    rw (long, split, take-append _ der key refl, drop-append _ der key refl)

encode_conn_public_key-decode_conn_public_key :
    (d der key : Bytes)
    → decode_conn_public_key d ≡ ok (der, key)
    → (d ≡ encode_conn_public_key der key) × (1 ≤ length der) × (length key ≡ 32)
unfolding decode_conn_public_key encode_conn_public_key
encode_conn_public_key-decode_conn_public_key [] der key e = cc
encode_conn_public_key-decode_conn_public_key (v ∷ rest) der key e = ground (
  arith,
  take-append-drop (length rest - 32) rest,
  length-drop (length rest - 32) rest,
  length-append (take (length rest - 32) rest) (drop (length rest - 32) rest),
)

-- A bundle decodes to two keys exactly when it is the encoding of a non-empty ML-DSA key and an
-- Ed25519 key of 32 bytes.
pub decode_conn_public_key_iff :
    (d der key : Bytes)
    → (decode_conn_public_key d ≡ ok (der, key))
      ↔ ((d ≡ encode_conn_public_key der key) × (1 ≤ length der) × (length key ≡ 32))
decode_conn_public_key_iff d der key = (
  encode_conn_public_key-decode_conn_public_key d der key,
  λ h. rw h.0 (decode_conn_public_key-encode_conn_public_key der key h.1 h.2),
)
