-- ===== src/Base64.antt =====
-- src/base64.rs: `decode_char`, `encode_base64` and `decode_base64`. A `String` of the encoder and
-- the `&str` of the decoder are their bytes, since the alphabet is ASCII.
mod Chars
pub mod RoundTrip
pub mod Decoded
pub mod Alphabet
mod Runs
use Prim.Native.Nat.{bit_and, bit_or}
use Prim.Native.Char.{code}
use Prim.Native.String.{String}
use axsh.Prelude.{ℕ, zero, suc, ◌+◌, ◌-◌, ◌*◌, ◌/◌, ◌%◌, ◌^◌, Bool, ◌&&◌, Bytes, length, get_or}
use axsh.Prelude.{List, [], ◌∷◌, ◌++◌, ltb, leb, ◌==◌, if◌then◌else◌}
use axsh.Prelude.{Result, ok, err, ◌>>=◌, ◌>>◌, ensure}

-- The code points of a text, its bytes where it is ASCII.
abbrev pub codes : String → Bytes
codes String.[] = []
codes (String.◌∷◌ c s) = code c ∷ codes s

-- `index_panic` stands for the panic of an index out of range.
pub data Error : Type 0 where
  invalid_character bad_length misplaced_padding invalid_padding index_panic : Error

unfoldable pub base64_alphabet : Bytes
base64_alphabet = codes "ABCDEFGHIJKLMNOPQRSTUVWXYZabcdefghijklmnopqrstuvwxyz0123456789+/"

-- `=`
abbrev pub pad : ℕ
pad = 61

unfoldable pub decode_char : ℕ → Result Error ℕ
decode_char byte =
    if leb 65 byte && leb byte 90
    then ok (byte - 65)
    else if leb 97 byte && leb byte 122
    then ok (byte - 97 + 26)
    else if leb 48 byte && leb byte 57
    then ok (byte - 48 + 52)
    else if byte == 43
    then ok 62
    else if byte == 47
    then ok 63
    else err invalid_character

-- `BASE64_ALPHABET[i]`; every index is masked to six bits, so the default is never read.
unfoldable pub alphabet_at : ℕ → ℕ
unfolding base64_alphabet
alphabet_at i = get_or base64_alphabet i 0

-- The body of the loop over `data.chunks(3)`, for a chunk of 1 to 3 bytes.
unfoldable pub encode_chunk : Bytes → Bytes
encode_chunk chunk =
    let b0 = get_or chunk 0 0 in
    let b1 = get_or chunk 1 0 in
    let b2 = get_or chunk 2 0 in
    let word = bit_or (bit_or (b0 * 2 ^ 16) (b1 * 2 ^ 8)) b2 in
    let c0 = alphabet_at (bit_and (word / 2 ^ 18) 0x3f) in
    let c1 = alphabet_at (bit_and (word / 2 ^ 12) 0x3f) in
    let c2 = if leb 2 (length chunk) then alphabet_at (bit_and (word / 2 ^ 6) 0x3f) else pad in
    let c3 = if length chunk == 3 then alphabet_at (bit_and word 0x3f) else pad in
    c0 ∷ c1 ∷ c2 ∷ c3 ∷ []

-- The clauses are the chunks of three.
unfoldable pub encode_base64 : Bytes → Bytes
encode_base64 [] = []
encode_base64 (b0 ∷ []) = encode_chunk (b0 ∷ [])
encode_base64 (b0 ∷ b1 ∷ []) = encode_chunk (b0 ∷ b1 ∷ [])
encode_base64 (b0 ∷ b1 ∷ b2 ∷ rest) = encode_chunk (b0 ∷ b1 ∷ b2 ∷ []) ++ encode_base64 rest

-- `(a << 2) | (b >> 4)` and the two bytes after it, on `u8`.
abbrev pub first_byte : ℕ → ℕ → ℕ
first_byte a b = bit_or (a * 4 % 256) (b / 16)

abbrev pub second_byte : ℕ → ℕ → ℕ
second_byte b c = bit_or (b * 16 % 256) (c / 4)

abbrev pub third_byte : ℕ → ℕ → ℕ
third_byte c d = bit_or (c * 64 % 256) d

-- The loop over `bytes.chunks(4)`: `i` is the chunk's number, `n` is `bytes.len() / 4`, and `out`
-- is what is decoded so far.
unfoldable pub decode_chunks : ℕ → ℕ → Bytes → Bytes → Result Error Bytes
decode_chunks n i [] out = ok out
decode_chunks n i (c0 ∷ c1 ∷ c2 ∷ c3 ∷ rest) out =
    let is_last_chunk = i + 1 == n in
    do
      a ← decode_char c0
      b ← decode_char c1
      let out1 = out ++ first_byte a b ∷ []
      if c2 == pad
          then if c3 == pad
            then (do ensure is_last_chunk misplaced_padding; ok out1)
            else err invalid_padding
          else if c3 == pad
          then (do
            ensure is_last_chunk misplaced_padding
            c ← decode_char c2
            ok (out1 ++ second_byte b c ∷ []))
          else do
            c ← decode_char c2
            d ← decode_char c3
            decode_chunks n (i + 1) rest ((out1 ++ second_byte b c ∷ []) ++ third_byte c d ∷ [])
decode_chunks n i _ out = err index_panic

unfoldable pub decode_base64 : Bytes → Result Error Bytes
decode_base64 data' = do
  ensure (length data' % 4 == 0) bad_length
  decode_chunks (length data' / 4) 0 data' []
