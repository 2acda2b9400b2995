-- ===== src/KeyFile/Fingerprint.antt =====
-- src/lib.rs: fingerprints tell digests apart.
use axsh.Prelude.{
  ◌≢◌, ℕ, zero, suc, ◌≡◌, refl, sym, ap, ◌∙◌, Bool-cases, inl, inr, Bytes, IsByte, All, length,
  length-append, is_empty, is_empty→nil, append-injective, [], ◌∷◌, ◌++◌, arith, ok-injective, ◌==◌,
  ==→eq,
}
use axsh.Base64.{codes, encode_base64, decode_base64}
use axsh.Base64.RoundTrip.{length-encode_base64, decode_base64-encode_base64}
use axsh.KeyFile.{equals_sign, trim_end, format_sha256_digest}

abbrev signs : ℕ → Bytes
signs zero = []
signs (suc n) = equals_sign ∷ signs n

length-signs : (n : ℕ) → length (signs n) ≡ n
length-signs zero = refl
length-signs (suc n) = ap suc (length-signs n)

-- Only equals signs were cut off.
trim_end_lem : (xs : Bytes) → (n : ℕ) × (xs ≡ trim_end xs ++ signs n)
unfolding trim_end
trim_end_lem [] = (0, refl)
trim_end_lem (x ∷ xs) =
    let (n, e) = trim_end_lem xs in
    elim (Bool-cases (is_empty (trim_end xs))) [
      | inl empty ↦ elim (Bool-cases (x == equals_sign)) [
        | inl sign ↦
            rw (empty, sign)
              (
                suc n,
                ap (λ (t : Bytes). x ∷ t)
                      (e ∙ ap (λ (t : Bytes). t ++ signs n) (is_empty→nil (trim_end xs) empty))
                    ∙ ap (λ (b : ℕ). b ∷ signs n) (==→eq x equals_sign sign),
              )
        | inr other ↦ rw (empty, other) (n, ap (λ (t : Bytes). x ∷ t) e)
      ]
      | inr full ↦ rw full (n, ap (λ (t : Bytes). x ∷ t) e)
    ]

-- Texts of one length are equal if what is left of them is.
trim_end-injective : (xs ys : Bytes) → length xs ≡ length ys → trim_end xs ≡ trim_end ys → xs ≡ ys
trim_end-injective xs ys len e =
    let (n, p) = trim_end_lem xs in
    let (m, q) = trim_end_lem ys in
    let same : n ≡ m = omega (
      arith,
      len,
      ap length p,
      ap length q,
      ap length e,
      length-append (trim_end xs) (signs n),
      length-append (trim_end ys) (signs m),
      length-signs n,
      length-signs m,
    ) in
    p ∙ ap (λ (t : Bytes). t ++ signs n) e ∙ ap (λ (k : ℕ). trim_end ys ++ signs k) same ∙ sym q

format_sha256_digest-injective :
    (d e : Bytes)
    → All IsByte d
    → All IsByte e
    → length d ≡ length e
    → format_sha256_digest d ≡ format_sha256_digest e
    → d ≡ e
unfolding format_sha256_digest
format_sha256_digest-injective d e b h len p =
    let (_, trimmed) =
      append-injective (codes "SHA256:") (codes "SHA256:") (trim_end (encode_base64 d))
        (trim_end (encode_base64 e)) refl p in
    let same : encode_base64 d ≡ encode_base64 e =
      trim_end-injective (encode_base64 d) (encode_base64 e)
        (omega (arith, length-encode_base64 d, length-encode_base64 e, len)) trimmed in
    ok-injective (
      sym (decode_base64-encode_base64 d b)
      ∙ ap decode_base64 same
      ∙ decode_base64-encode_base64 e h)

-- Two different digests of one length have different printed forms, although the padding is cut off.
pub format_sha256_digest-ne :
    (d e : Bytes)
    → All IsByte d
    → All IsByte e
    → length d ≡ length e
    → d ≢ e
    → format_sha256_digest d ≢ format_sha256_digest e
format_sha256_digest-ne d e b h len ne p = ne (format_sha256_digest-injective d e b h len p)
