-- ===== src/Base64/RoundTrip.antt =====
-- `decode_base64` of src/base64.rs reads back what `encode_base64` wrote.
use axsh.Prelude.{ℕ, ◌+◌, ◌*◌, ◌/◌, ◌%◌, ◌<◌, ◌≡◌, Bytes, IsByte, All, length}
use axsh.Prelude.{[], ◌∷◌, ◌++◌, append_assoc, append-nil, ap, ok, arith, true, ◌==◌}
use axsh.Base64.{encode_base64, encode_chunk, decode_chunks, decode_base64, alphabet_at}
use axsh.Base64.{first_byte, second_byte, third_byte, pad}
use axsh.Base64.Chars.{
  decode_char-alphabet_at, alphabet_at-ne-pad, encode_chunk-three, encode_chunk-two,
  encode_chunk-one, first_byte_sum, second_byte_sum, third_byte_sum,
}

-- The encoder writes four characters for each group of three bytes begun.
pub length-encode_base64 : (bs : Bytes) → length (encode_base64 bs) ≡ (length bs + 2) / 3 * 4
unfolding encode_base64 encode_chunk
length-encode_base64 [] = omega arith
length-encode_base64 (b0 ∷ []) = omega arith
length-encode_base64 (b0 ∷ b1 ∷ []) = omega arith
length-encode_base64 (b0 ∷ b1 ∷ b2 ∷ rest) = omega (arith, length-encode_base64 rest)

-- One round of the decoder on sextets below 64, with none, one and two of them padded away.
module _ (n i s0 s1 : ℕ) (rest out : Bytes) (h0 : s0 < 64) (h1 : s1 < 64) where
  decode_full :
      (s2 s3 : ℕ)
      → s2 < 64
      → s3 < 64
      → decode_chunks n i
          (alphabet_at s0 ∷ alphabet_at s1 ∷ alphabet_at s2 ∷ alphabet_at s3 ∷ rest)
          out
        ≡ decode_chunks n
            (i + 1)
            rest
            (((out ++ first_byte s0 s1 ∷ []) ++ second_byte s1 s2 ∷ []) ++ third_byte s2 s3 ∷ [])
  unfolding decode_chunks
  decode_full s2 s3 h2 h3 = rw (
    decode_char-alphabet_at s0 h0,
    decode_char-alphabet_at s1 h1,
    alphabet_at-ne-pad s2 h2,
    alphabet_at-ne-pad s3 h3,
    decode_char-alphabet_at s2 h2,
    decode_char-alphabet_at s3 h3,
  )

  decode_two :
      (s2 : ℕ)
      → s2 < 64
      → (i + 1 == n) ≡ true
      → decode_chunks n i (alphabet_at s0 ∷ alphabet_at s1 ∷ alphabet_at s2 ∷ pad ∷ rest) out
        ≡ ok ((out ++ first_byte s0 s1 ∷ []) ++ second_byte s1 s2 ∷ [])
  unfolding decode_chunks
  decode_two s2 h2 last = rw (
    decode_char-alphabet_at s0 h0,
    decode_char-alphabet_at s1 h1,
    alphabet_at-ne-pad s2 h2,
    last,
    decode_char-alphabet_at s2 h2,
  )

  decode_one :
      (i + 1 == n) ≡ true
      → decode_chunks n i (alphabet_at s0 ∷ alphabet_at s1 ∷ pad ∷ pad ∷ rest) out
        ≡ ok (out ++ first_byte s0 s1 ∷ [])
  unfolding decode_chunks
  decode_one last = rw (decode_char-alphabet_at s0 h0, decode_char-alphabet_at s1 h1, last)

regroup :
    (x y z : ℕ) (out rest : Bytes)
    → (((out ++ x ∷ []) ++ y ∷ []) ++ z ∷ []) ++ rest ≡ out ++ (x ∷ y ∷ z ∷ rest)
regroup x y z out rest = simp append_assoc

decode_chunks-encode_base64 :
    (bs : Bytes) (n i : ℕ) (out : Bytes)
    → All IsByte bs
    → i + (length bs + 2) / 3 ≡ n
    → decode_chunks n i (encode_base64 bs) out ≡ ok (out ++ bs)
unfolding encode_base64
decode_chunks-encode_base64 [] n i out h e = unfold decode_chunks in rw append-nil
decode_chunks-encode_base64 (b0 ∷ []) n i out h e =
    rw
      (
        encode_chunk-one b0 h.0,
        decode_one n i (b0 / 4) (b0 % 4 * 16) [] out (omega arith) (omega arith) (ground arith),
        first_byte_sum (b0 / 4) (b0 % 4 * 16) (omega arith) (omega arith),
      )
      (ap (λ (x : ℕ). ok (out ++ x ∷ [])) (omega arith))
decode_chunks-encode_base64 (b0 ∷ b1 ∷ []) n i out h e =
    rw
      (
        encode_chunk-two b0 b1 h.0 h.1.0,
        decode_two n i (b0 / 4) (b0 % 4 * 16 + b1 / 16) [] out (omega arith) (omega arith)
            (b1 % 16 * 4) (omega arith) (ground arith),
        first_byte_sum (b0 / 4) (b0 % 4 * 16 + b1 / 16) (omega arith) (omega arith),
        second_byte_sum (b0 % 4 * 16 + b1 / 16) (b1 % 16 * 4) (omega arith) (omega arith),
      )
      (ap ok (regroup_two b0 b1 _ _ out (omega arith) (omega arith)))
  where
    regroup_two :
        (b0 b1 x y : ℕ) (out : Bytes)
        → x ≡ b0
        → y ≡ b1
        → (out ++ x ∷ []) ++ y ∷ [] ≡ out ++ (b0 ∷ b1 ∷ [])
    regroup_two b0 b1 x y out p q = rw (p, q, append_assoc)
decode_chunks-encode_base64 (b0 ∷ b1 ∷ b2 ∷ rest) n i out h e =
    rw
      (
        encode_chunk-three b0 b1 b2 h.0 h.1.0 h.1.1.0,
        decode_full n i (b0 / 4) (b0 % 4 * 16 + b1 / 16) (encode_base64 rest) out (omega arith)
            (omega arith) (b1 % 16 * 4 + b2 / 64) (b2 % 64) (omega arith) (omega arith),
        first_byte_sum (b0 / 4) (b0 % 4 * 16 + b1 / 16) (omega arith) (omega arith),
        second_byte_sum (b0 % 4 * 16 + b1 / 16) (b1 % 16 * 4 + b2 / 64) (omega arith) (omega arith),
        third_byte_sum (b1 % 16 * 4 + b2 / 64) (b2 % 64) (omega arith) (omega arith),
      )
      (three b0 b1 b2 _ _ _ (omega arith) (omega arith) (omega arith) (
        decode_chunks-encode_base64 rest n (i + 1) (((out ++ b0 ∷ []) ++ b1 ∷ []) ++ b2 ∷ [])
          h.1.1.1 (omega arith)))
  where
    three :
        (b0 b1 b2 x y z : ℕ)
        → x ≡ b0
        → y ≡ b1
        → z ≡ b2
        → decode_chunks n (i + 1) (encode_base64 rest) (((out ++ b0 ∷ []) ++ b1 ∷ []) ++ b2 ∷ [])
          ≡ ok ((((out ++ b0 ∷ []) ++ b1 ∷ []) ++ b2 ∷ []) ++ rest)
        → decode_chunks n (i + 1) (encode_base64 rest) (((out ++ x ∷ []) ++ y ∷ []) ++ z ∷ [])
          ≡ ok (out ++ (b0 ∷ b1 ∷ b2 ∷ rest))
    three b0 b1 b2 x y z p q r ih = rw (p, q, r, ih) (ap ok (regroup b0 b1 b2 out rest))

-- Decoding the encoding of any bytes succeeds and gives the bytes back.
pub decode_base64-encode_base64 :
    (bs : Bytes) → All IsByte bs → decode_base64 (encode_base64 bs) ≡ ok bs
unfolding decode_base64
decode_base64-encode_base64 bs h =
    let whole : (length (encode_base64 bs) % 4 == 0) ≡ true =
      ground (arith, length-encode_base64 bs) in
    rw whole (
      decode_chunks-encode_base64 bs (length (encode_base64 bs) / 4) 0 [] h
        (omega (arith, length-encode_base64 bs)))
