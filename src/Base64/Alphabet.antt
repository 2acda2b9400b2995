-- ===== src/Base64/Alphabet.antt =====
-- The characters that `encode_base64` of src/base64.rs writes.
use axsh.Prelude.{ℕ, ◌<◌, Bytes, IsByte, All, All-append, [], ◌∷◌, arith}
use mathlib.Core.Path.{subst, sym}
use axsh.Base64.{encode_base64, alphabet_at, pad}
use axsh.Base64.Chars.{encode_chunk-three, encode_chunk-two, encode_chunk-one}

-- They are the 64 of the alphabet and the padding.
pub encode_base64-All :
    (P : ℕ → Type 0) (bs : Bytes)
    → ((v : ℕ) → v < 64 → P (alphabet_at v))
    → P pad
    → All IsByte bs
    → All P (encode_base64 bs)
unfolding encode_base64
encode_base64-All P [] p q h = tt
encode_base64-All P (b0 ∷ []) p q h =
    subst (All P) (sym (encode_chunk-one b0 h.0))
      (p _ (omega arith), (p _ (omega arith), (q, (q, tt))))
encode_base64-All P (b0 ∷ b1 ∷ []) p q h =
    subst (All P) (sym (encode_chunk-two b0 b1 h.0 h.1.0))
      (p _ (omega arith), (p _ (omega arith), (p _ (omega arith), (q, tt))))
encode_base64-All P (b0 ∷ b1 ∷ b2 ∷ rest) p q h =
    All-append P _ _
      (subst (All P) (sym (encode_chunk-three b0 b1 b2 h.0 h.1.0 h.1.1.0))
        (p _ (omega arith), (p _ (omega arith), (p _ (omega arith), (p _ (omega arith), tt)))))
      (encode_base64-All P rest p q h.1.1.1)
