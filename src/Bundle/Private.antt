-- ===== src/Bundle/Private.antt =====
-- The private key bundle of src/lib.rs, as `write_to_file` writes and `from_bytes` reads it.
use axsh.Prelude.{
  ◌+◌, ◌-◌, ◌^◌, ◌≤◌, ◌<◌, ◌≡◌, refl, sym, ap, ◌∙◌, Bytes, bytes_eq→eq, IsByte, All, All-take,
  All-drop, length, length-append, length-drop, length-take, take, drop, take-append, drop-append,
  take-append-drop,
}
use axsh.Prelude.{◌++◌, arith, ltb, ◌==◌, not, if◌then◌else◌, true, false, ok, err}
use axsh.Prelude.Words.{
  to_be_bytes, from_be_bytes, length-to_be_bytes, from_be_bytes-to_be_bytes,
  to_be_bytes-from_be_bytes, from_be_bytes-lt,
}
use axsh.Bundle.{
  conn_private_key_magic, truncated, ml_dsa_too_large, ed25519_too_large,
  encode_conn_private_key_bundle, decode_conn_private_key_bundle,
}

-- The layout of a bundle.
abbrev bundle : Bytes → Bytes → Bytes
bundle m e =
    conn_private_key_magic ++ (to_be_bytes 4 (length m) ++ (to_be_bytes 4 (length e) ++ (m ++ e)))

encode-bundle :
    (m e : Bytes)
    → encode_conn_private_key_bundle m e ≡ (
        if ltb (length m) (2 ^ 32)
        then (if ltb (length e) (2 ^ 32) then ok (bundle m e) else err ed25519_too_large)
        else err ml_dsa_too_large)
unfolding encode_conn_private_key_bundle
encode-bundle m e = ground arith

-- The decoder on the magic, two length fields and what follows.
decode-parts :
    (a b r : Bytes)
    → length a ≡ 4
    → length b ≡ 4
    → decode_conn_private_key_bundle (conn_private_key_magic ++ (a ++ (b ++ r))) ≡ (
        if not (length r == from_be_bytes a + from_be_bytes b)
        then err truncated
        else ok (take (from_be_bytes a) r, drop (from_be_bytes a) r))
unfolding decode_conn_private_key_bundle
decode-parts a b r ha hb =
    let long : ltb (length (conn_private_key_magic ++ (a ++ (b ++ r)))) 16 ≡ false =
      ground (arith, length-append a (b ++ r), length-append b r) in
    rw (
      long,
      take-append 4 a (b ++ r) ha,
      drop-append 4 a (b ++ r) ha,
      take-append 4 b r hb,
      drop-append 4 b r hb,
    )

decode-bundle :
    (m e : Bytes)
    → length m < 2 ^ 32
    → length e < 2 ^ 32
    → decode_conn_private_key_bundle (bundle m e) ≡ ok (m, e)
decode-bundle m e hm he =
    let fits : length (m ++ e) ≡ length m + length e = length-append m e in
    let same : (length (m ++ e) == length m + length e) ≡ true = ground (arith, fits) in
    decode-parts (to_be_bytes 4 (length m)) (to_be_bytes 4 (length e)) (m ++ e)
      (length-to_be_bytes 4 _) (length-to_be_bytes 4 _)
    ∙ rw (
      from_be_bytes-to_be_bytes 4 (length m) hm,
      from_be_bytes-to_be_bytes 4 (length e) he,
      same,
      take-append _ m e refl,
      drop-append _ m e refl,
    )

-- What `write_to_file` writes, `from_bytes` reads: a bundle that was encoded decodes to its two parts,
-- and the encoder refuses no key whose length fits 32 bits.
pub decode_conn_private_key_bundle-encode :
    (m e : Bytes)
    → length m < 2 ^ 32
    → length e < 2 ^ 32
    → (d : Bytes) × (encode_conn_private_key_bundle m e ≡ ok d)
      × (decode_conn_private_key_bundle d ≡ ok (m, e))
decode_conn_private_key_bundle-encode m e hm he =
    (bundle m e, encode-bundle m e ∙ ground arith, decode-bundle m e hm he)

decoded_tests :
    (d : Bytes) {p : Bytes × Bytes}
    → decode_conn_private_key_bundle d ≡ ok p
    → (16 ≤ length d) × (take 8 d ≡ conn_private_key_magic)
unfolding decode_conn_private_key_bundle
decoded_tests d h = ground (arith, bytes_eq→eq (take 8 d) conn_private_key_magic)

join_parts :
    (magic d : Bytes)
    → take 8 d ≡ magic
    → magic ++ (take 4 (drop 8 d) ++ (take 4 (drop 4 (drop 8 d)) ++ drop 4 (drop 4 (drop 8 d)))) ≡ d
join_parts magic d h =
    rw (take-append-drop 4 (drop 4 (drop 8 d)), take-append-drop 4 (drop 8 d), ← h)
      (take-append-drop 8 d)

decoded_parts :
    (a b r m e : Bytes)
    → length a ≡ 4
    → length b ≡ 4
    → All IsByte a
    → All IsByte b
    → decode_conn_private_key_bundle (conn_private_key_magic ++ (a ++ (b ++ r))) ≡ ok (m, e)
    → encode_conn_private_key_bundle m e ≡ ok (conn_private_key_magic ++ (a ++ (b ++ r)))
decoded_parts a b r m e ha hb ba bb h =
    let tested = sym (decode-parts a b r ha hb) ∙ h in
    let total : length r ≡ from_be_bytes a + from_be_bytes b = ground arith in
    let front : take (from_be_bytes a) r ≡ m = ground arith in
    let back : drop (from_be_bytes a) r ≡ e = ground arith in
    let lm : length m ≡ from_be_bytes a =
      rw (← front) (omega (arith, length-take (from_be_bytes a) r)) in
    let le : length e ≡ from_be_bytes b =
      rw (← back) (omega (arith, length-drop (from_be_bytes a) r)) in
    let fa : from_be_bytes a < 2 ^ 32 = rw ha at (from_be_bytes-lt a ba) in
    let fb : from_be_bytes b < 2 ^ 32 = rw hb at (from_be_bytes-lt b bb) in
    let pa : to_be_bytes 4 (length m) ≡ a = rw lm (rw ha at (to_be_bytes-from_be_bytes a ba)) in
    let pb : to_be_bytes 4 (length e) ≡ b = rw le (rw hb at (to_be_bytes-from_be_bytes b bb)) in
    let pr : m ++ e ≡ r = rw (← front, ← back) (take-append-drop (from_be_bytes a) r) in
    let small : encode_conn_private_key_bundle m e ≡ ok (bundle m e) =
      encode-bundle m e ∙ ground arith in
    small ∙ ap (λ (t : Bytes). ok (conn_private_key_magic ++ t)) (rw (pa, pb, pr))

-- A bundle of bytes that decodes is the encoding of what it decodes to.
pub encode-decode_conn_private_key_bundle :
    (d m e : Bytes)
    → All IsByte d
    → decode_conn_private_key_bundle d ≡ ok (m, e)
    → encode_conn_private_key_bundle m e ≡ ok d
encode-decode_conn_private_key_bundle d m e h decoded =
    let (long, magic) = decoded_tests d decoded in
    let whole = join_parts conn_private_key_magic d magic in
    let rest = drop 8 d in
    let rest_bytes = All-drop IsByte 8 d h in
    let n : length rest ≡ length d - 8 = length-drop 8 d in
    rw whole at (
      decoded_parts (take 4 rest) (take 4 (drop 4 rest)) (drop 4 (drop 4 rest)) m e
        (omega (arith, length-take 4 rest))
        (omega (arith, length-take 4 (drop 4 rest), length-drop 4 rest))
        (All-take IsByte 4 rest rest_bytes)
        (All-take IsByte 4 (drop 4 rest) (All-drop IsByte 4 rest rest_bytes)) (rw whole decoded))
