-- ===== src/Packet/RoundTrip.antt =====
-- src/packet.rs: the bodies and the unsigned packets, written and read back.
use axsh.Prelude.{
  ℕ, ◌^◌, ◌<◌, ◌≡◌, refl, Bytes, length, length-append, take-append, drop-append, append-nil, [],
  ◌∷◌, ◌++◌, arith, leb, le→leb, ==_refl, Bool, true, Option, ok,
}
use axsh.Prelude.Words.{to_be_bytes, length-to_be_bytes, from_be_bytes-to_be_bytes}
use axsh.Crypto.{Crypto}
use axsh.ConnKey.{ConnVerify, conn_signature_len}
use axsh.PacketKey.{PacketVerify}
use axsh.Packet.Hello.{
  ServerHello, ClientHello, IsServerHello, IsClientHello, server_hello_magic, server_hello_version,
  take_u64, take_fixed, encode_server_hello, decode_server_hello, encode_client_hello,
  decode_client_hello,
}
use axsh.Packet.Wire.{
  Packet, server_hello, request_server_pubkey, server_pubkey, client_hello, server_complete,
  payload, serialize_unsigned, decode_server_complete, deserialize,
}

pub take_u64-append :
    (n : ℕ) (rest : Bytes) → n < 2 ^ 64 → take_u64 (to_be_bytes 8 n ++ rest) ≡ ok (n, rest)
unfolding take_u64
take_u64-append n rest h =
    let len : length (to_be_bytes 8 n) ≡ 8 = length-to_be_bytes 8 n in
    let long : leb 8 (length (to_be_bytes 8 n ++ rest)) ≡ true =
      le→leb _ _ (omega (arith, len, length-append (to_be_bytes 8 n) rest)) in
    rw (
      long,
      take-append 8 (to_be_bytes 8 n) rest len,
      drop-append 8 (to_be_bytes 8 n) rest len,
      from_be_bytes-to_be_bytes 8 n h,
    )

pub take_fixed-append :
    (n : ℕ) (xs rest : Bytes) → length xs ≡ n → take_fixed n (xs ++ rest) ≡ ok (xs, rest)
unfolding take_fixed
take_fixed-append n xs rest h =
    let long : leb n (length (xs ++ rest)) ≡ true =
      le→leb _ _ (omega (arith, h, length-append xs rest)) in
    rw (long, take-append n xs rest h, drop-append n xs rest h)

take_fixed-all : (n : ℕ) (xs : Bytes) → length xs ≡ n → take_fixed n xs ≡ ok (xs, [])
take_fixed-all n xs h = rw append-nil at (take_fixed-append n xs [] h)

pub decode_client_hello-encode_client_hello :
    (h : ClientHello) → IsClientHello h → decode_client_hello (encode_client_hello h) ≡ ok h
unfolding decode_client_hello encode_client_hello
decode_client_hello-encode_client_hello h v = rw (
  take_u64-append h.unique _ v.unique_fits,
  take_fixed-append 32 h.conn_sign_public_key_sha256 _ v.length_digest,
  take_fixed-all 32 h.packet_sign_public_key v.length_key,
)

take_magic :
    (rest : Bytes) → take_fixed 4 (server_hello_magic ++ rest) ≡ ok (server_hello_magic, rest)
take_magic rest = take_fixed-append 4 server_hello_magic rest refl

take_version :
    (rest : Bytes)
    → take_fixed 1 (server_hello_version ∷ rest) ≡ ok (server_hello_version ∷ [], rest)
take_version rest = take_fixed-append 1 (server_hello_version ∷ []) rest refl

pub decode_server_hello-encode_server_hello :
    (h : ServerHello) → IsServerHello h → decode_server_hello (encode_server_hello h) ≡ ok h
unfolding decode_server_hello encode_server_hello
decode_server_hello-encode_server_hello h v = rw (
  take_magic _,
  take_version _,
  take_u64-append h.unique _ v.unique_fits,
  take_fixed-append 32 h.conn_sign_public_key_sha256 _ v.length_digest,
  take_fixed-all 32 h.packet_sign_public_key v.length_key,
)

-- A packet that goes unsigned, with fields that fit their Rust types, and with a signature of the
-- receiver's mode.
abbrev pub IsUnsigned : Crypto → Bool → Packet → Type 0
IsUnsigned c q (server_hello h) = IsServerHello h
IsUnsigned c q request_server_pubkey = Unit
IsUnsigned c q (server_pubkey key) = Unit
IsUnsigned c q (server_complete signature) = length signature ≡ conn_signature_len c q
IsUnsigned c q (client_hello h) = ⊥
IsUnsigned c q (payload d) = ⊥

module _ (c : Crypto) (now later : ℕ) (u : Option ℕ) (cv : Option ConnVerify)
    (pv : Option PacketVerify) (q : Bool) where
  -- An unsigned packet is serialised, and reading it back gives the packet, whatever verifiers are at
  -- hand; the packet verifier is not touched.
  pub deserialize-serialize_unsigned :
      (p : Packet)
      → IsUnsigned c q p
      → (wire : Bytes) × (serialize_unsigned p ≡ ok wire)
        × (deserialize c now later wire u cv pv q ≡ (ok p, pv))
  unfolding serialize_unsigned deserialize
  deserialize-serialize_unsigned (server_hello h) v =
      (_, refl, rw (decode_server_hello-encode_server_hello h v))
  deserialize-serialize_unsigned request_server_pubkey v = (_, refl, refl)
  deserialize-serialize_unsigned (server_pubkey key) v = (_, refl, refl)
  deserialize-serialize_unsigned (server_complete signature) v =
      (_, refl, unfold decode_server_complete in rw (v, ==_refl))
  deserialize-serialize_unsigned (client_hello h) v = absurd v
  deserialize-serialize_unsigned (payload d) v = absurd v
