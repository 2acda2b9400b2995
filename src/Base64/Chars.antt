-- ===== src/Base64/Chars.antt =====
-- The alphabet of src/base64.rs against `decode_char`, and the bits of one group.
use Prim.Native.Nat.{bit_or}
use axsh.Prelude.{ℕ, ◌+◌, ◌*◌, ◌/◌, ◌%◌, ◌^◌, ◌<◌, ◌≡◌, refl, Bool, true, false, not}
use axsh.Prelude.{[], ◌∷◌, ◌==◌, Result, ok, err, arith, IsByte}
use axsh.Prelude.Bits.{bit_or_sum, bit_and_low}
use axsh.Prelude.Tables.{every, every_sound}
use axsh.Base64.{Error, decode_char, alphabet_at, encode_chunk, pad}
use axsh.Base64.{first_byte, second_byte, third_byte}

abbrev yields : Result Error ℕ → ℕ → Bool
yields (ok w) v = w == v
yields (err e) v = false

yields→ok : (r : Result Error ℕ) (v : ℕ) → yields r v ≡ true → r ≡ ok v
yields→ok (ok w) v h = ground arith
yields→ok (err e) v h = cc

pub decode_char-alphabet_at : (v : ℕ) → v < 64 → decode_char (alphabet_at v) ≡ ok v
unfolding every alphabet_at decode_char
decode_char-alphabet_at v h =
    yields→ok _ v (every_sound (λ v. yields (decode_char (alphabet_at v)) v) 64 refl v h)

pub alphabet_at-ne-pad : (v : ℕ) → v < 64 → (alphabet_at v == pad) ≡ false
unfolding every alphabet_at
alphabet_at-ne-pad v h = ground (arith, every_sound (λ v. not (alphabet_at v == pad)) 64 refl v h)

pub decode_char-lt : (c v : ℕ) → decode_char c ≡ ok v → v < 64
unfolding decode_char
decode_char-lt c v h = ground arith

word_sum :
    (b0 b1 b2 : ℕ)
    → IsByte b1
    → IsByte b2
    → bit_or (bit_or (b0 * 2 ^ 16) (b1 * 2 ^ 8)) b2 ≡ b0 * 65536 + b1 * 256 + b2
word_sum b0 b1 b2 h1 h2 =
    let high : bit_or (b0 * 2 ^ 16) (b1 * 2 ^ 8) ≡ (b0 * 256 + b1) * 2 ^ 8 =
      omega (arith, bit_or_sum 16 b0 (b1 * 2 ^ 8) (omega arith)) in
    rw high (omega (arith, bit_or_sum 8 (b0 * 256 + b1) b2 (omega arith)))

-- What the encoder writes for a chunk of three, two and one bytes, as sextets.
pub encode_chunk-three :
    (b0 b1 b2 : ℕ)
    → IsByte b0
    → IsByte b1
    → IsByte b2
    → encode_chunk (b0 ∷ b1 ∷ b2 ∷ [])
      ≡ alphabet_at (b0 / 4)
        ∷ alphabet_at (b0 % 4 * 16 + b1 / 16)
        ∷ alphabet_at (b1 % 16 * 4 + b2 / 64)
        ∷ alphabet_at (b2 % 64)
        ∷ []
unfolding encode_chunk
encode_chunk-three b0 b1 b2 h0 h1 h2 = rw (word_sum b0 b1 b2 h1 h2) (
    ground (
      arith,
      bit_and_low 6 ((b0 * 65536 + b1 * 256 + b2) / 2 ^ 18),
      bit_and_low 6 ((b0 * 65536 + b1 * 256 + b2) / 2 ^ 12),
      bit_and_low 6 ((b0 * 65536 + b1 * 256 + b2) / 2 ^ 6),
      bit_and_low 6 (b0 * 65536 + b1 * 256 + b2),
    ))

pub encode_chunk-two :
    (b0 b1 : ℕ)
    → IsByte b0
    → IsByte b1
    → encode_chunk (b0 ∷ b1 ∷ [])
      ≡ alphabet_at (b0 / 4)
        ∷ alphabet_at (b0 % 4 * 16 + b1 / 16)
        ∷ alphabet_at (b1 % 16 * 4)
        ∷ pad
        ∷ []
unfolding encode_chunk
encode_chunk-two b0 b1 h0 h1 = rw (word_sum b0 b1 0 h1 (omega arith)) (
    ground (
      arith,
      bit_and_low 6 ((b0 * 65536 + b1 * 256 + 0) / 2 ^ 18),
      bit_and_low 6 ((b0 * 65536 + b1 * 256 + 0) / 2 ^ 12),
      bit_and_low 6 ((b0 * 65536 + b1 * 256 + 0) / 2 ^ 6),
    ))

pub encode_chunk-one :
    (b0 : ℕ)
    → IsByte b0
    → encode_chunk (b0 ∷ []) ≡ alphabet_at (b0 / 4) ∷ alphabet_at (b0 % 4 * 16) ∷ pad ∷ pad ∷ []
unfolding encode_chunk
encode_chunk-one b0 h0 = rw (word_sum b0 0 0 (omega arith) (omega arith)) (
    ground (
      arith,
      bit_and_low 6 ((b0 * 65536 + 0 * 256 + 0) / 2 ^ 18),
      bit_and_low 6 ((b0 * 65536 + 0 * 256 + 0) / 2 ^ 12),
    ))

-- The decoder's bytes as arithmetic on sextets.
pub first_byte_sum : (a b : ℕ) → a < 64 → b < 64 → first_byte a b ≡ a * 4 + b / 16
first_byte_sum a b h k = ground (arith, bit_or_sum 2 a (b / 16))

pub second_byte_sum : (b c : ℕ) → b < 64 → c < 64 → second_byte b c ≡ b % 16 * 16 + c / 4
second_byte_sum b c h k = ground (arith, bit_or_sum 4 (b % 16) (c / 4))

pub third_byte_sum : (c d : ℕ) → c < 64 → d < 64 → third_byte c d ≡ c % 4 * 64 + d
third_byte_sum c d h k = ground (arith, bit_or_sum 6 (c % 4) d)
