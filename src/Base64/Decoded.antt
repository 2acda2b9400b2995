-- ===== src/Base64/Decoded.antt =====
-- `decode_base64` of src/base64.rs on any text, well formed or not.
use axsh.Prelude.{
  ℕ, zero, suc, ◌+◌, ◌*◌, ◌/◌, ◌%◌, ◌<◌, ◌≤◌, ◌≡◌, ◌≢◌, inl, inr, refl, ap, Bytes, IsByte, All,
  All-append, length, length-append,
}
use axsh.Prelude.{
  Bool, true, false, [], ◌∷◌, ◌++◌, Result, ok, err, ◌>>=◌, ◌>>◌, ensure, arith, ◌==◌,
  if◌then◌else◌, Bool-cases,
}
use axsh.Base64.{Error, index_panic, decode_char, decode_chunks, decode_base64, pad}
use axsh.Base64.{first_byte, second_byte, third_byte}
use axsh.Base64.Chars.{decode_char-lt, first_byte_sum, second_byte_sum, third_byte_sum}

-- A result that is at most `k` bytes, or an error that is no panic.
abbrev pub IsDecoded : ℕ → Result Error Bytes → Type 0
IsDecoded k (ok bs) = All IsByte bs × (length bs ≤ k)
IsDecoded k (err e) = e ≢ index_panic

-- What the decoder has written after some rounds.
abbrev IsWritten : ℕ → Bytes → Type 0
IsWritten k out = All IsByte out × (length out ≤ k)

push-IsWritten :
    (k : ℕ) (out : Bytes) (x : ℕ) → IsWritten k out → IsByte x → IsWritten (suc k) (out ++ x ∷ [])
push-IsWritten k out x w h =
    (All-append IsByte out (x ∷ []) w.0 (h, tt), omega (arith, w.1, length-append out (x ∷ [])))

decode_char-bind :
    (k c : ℕ) (f : ℕ → Result Error Bytes)
    → ((v : ℕ) → v < 64 → IsDecoded k (f v))
    → IsDecoded k (decode_char c >>= f)
decode_char-bind k c f h = go (decode_char c) (λ v e. decode_char-lt c v e) (unpanicked c)
  where
    unpanicked : (c : ℕ) → decode_char c ≢ err index_panic
    unpanicked c = unfold decode_char in ground arith

    go :
        (r : Result Error ℕ)
        → ((v : ℕ) → r ≡ ok v → v < 64)
        → r ≢ err index_panic
        → IsDecoded k (r >>= f)
    go (ok v) below calm = h v (below v refl)
    go (err e) below calm = λ p. calm (ap (λ (x : Error). err x) p)

ensure-bind :
    (k : ℕ) (b : Bool) (e : Error) (f : Result Error Bytes)
    → e ≢ index_panic
    → IsDecoded k f
    → IsDecoded k (ensure b e >> f)
ensure-bind k true e f calm h = h
ensure-bind k false e f calm h = calm

if-IsDecoded :
    (k : ℕ) (b : Bool) (x y : Result Error Bytes)
    → IsDecoded k x
    → IsDecoded k y
    → IsDecoded k (if b then x else y)
if-IsDecoded k true x y h g = h
if-IsDecoded k false x y h g = g

widen : (k m : ℕ) (r : Result Error Bytes) → k ≤ m → IsDecoded k r → IsDecoded m r
widen k m (ok bs) h d = (d.0, omega (arith, d.1))
widen k m (err e) h d = d

first-IsByte : (a b : ℕ) → a < 64 → b < 64 → IsByte (first_byte a b)
first-IsByte a b h g = omega (arith, first_byte_sum a b h g)

second-IsByte : (b c : ℕ) → b < 64 → c < 64 → IsByte (second_byte b c)
second-IsByte b c h g = omega (arith, second_byte_sum b c h g)

third-IsByte : (c d : ℕ) → c < 64 → d < 64 → IsByte (third_byte c d)
third-IsByte c d h g = omega (arith, third_byte_sum c d h g)

decode_chunks-IsDecoded :
    (d : Bytes) (n i k q : ℕ) (out : Bytes)
    → length d ≡ q * 4
    → IsWritten k out
    → IsDecoded (k + q * 3) (decode_chunks n i d out)
unfolding decode_chunks
decode_chunks-IsDecoded [] n i k q out e w = (w.0, omega (arith, w.1))
decode_chunks-IsDecoded (c0 ∷ []) n i k q out e w = absurd (omega arith)
decode_chunks-IsDecoded (c0 ∷ c1 ∷ []) n i k q out e w = absurd (omega arith)
decode_chunks-IsDecoded (c0 ∷ c1 ∷ c2 ∷ []) n i k q out e w = absurd (omega arith)
decode_chunks-IsDecoded (c0 ∷ c1 ∷ c2 ∷ c3 ∷ rest) n i k zero out e w = absurd (omega arith)
decode_chunks-IsDecoded (c0 ∷ c1 ∷ c2 ∷ c3 ∷ rest) n i k (suc q) out e w =
    let m = k + suc q * 3 in
    decode_char-bind m c0 _ (λ a ha. decode_char-bind m c1 _ (λ b hb.
      let w1 : IsWritten (suc k) (out ++ first_byte a b ∷ []) =
        push-IsWritten k out (first_byte a b) w (first-IsByte a b ha hb) in
      if-IsDecoded m (c2 == pad) _ _
        (if-IsDecoded m (c3 == pad) _ _
          (ensure-bind m (i + 1 == n) _ _ (λ p. cc) (w1.0, omega (arith, w1.1))) (λ p. cc))
        (if-IsDecoded m (c3 == pad) _ _
          (ensure-bind m (i + 1 == n) _ _ (λ p. cc)
            (decode_char-bind m c2 _ (λ c hc.
              let w2 = push-IsWritten (suc k) _ (second_byte b c) w1 (second-IsByte b c hb hc) in
              (w2.0, omega (arith, w2.1)))))
          (decode_char-bind m c2 _ (λ c hc. decode_char-bind m c3 _ (λ d hd.
            let w2 = push-IsWritten (suc k) _ (second_byte b c) w1 (second-IsByte b c hb hc) in
            let w3 = push-IsWritten (suc (suc k)) _ (third_byte c d) w2 (third-IsByte c d hc hd) in
            widen (suc (suc (suc k)) + q * 3) m _ (omega arith) (
              decode_chunks-IsDecoded rest n (i + 1) (suc (suc (suc k))) q _ (omega arith) w3)))))))

-- On any text `decode_base64` either fails with an error that is no index panic, or returns bytes,
-- at most three for each group of four characters.
pub decode_base64-IsDecoded : (d : Bytes) → IsDecoded (length d / 4 * 3) (decode_base64 d)
unfolding decode_base64
decode_base64-IsDecoded d = elim (Bool-cases (length d % 4 == 0)) [
  | inl whole ↦ rw whole (
      widen (0 + length d / 4 * 3) (length d / 4 * 3) _ (omega arith) (
        decode_chunks-IsDecoded d (length d / 4) 0 0 (length d / 4) [] (ground arith)
          (tt, omega arith)))
  | inr ragged ↦ rw ragged (λ p. cc)
]
