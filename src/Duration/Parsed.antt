-- ===== src/Duration/Parsed.antt =====
-- `parse_duration` of src/lib.rs on decimal numbers with each suffix, and on the suffix `ms`.
use axsh.Prelude.{
  ℕ, suc, ◌+◌, ◌-◌, ◌*◌, ◌^◌, ◌≤◌, ◌<◌, ◌≡◌, refl, sym, ap, ◌∙◌, true, false, Bool-cases, inl, inr,
  Bytes, All, length, [], ◌∷◌, ◌++◌, append_assoc, arith, ltb, ◌==◌, ==_refl, Option, none, some,
  if◌then◌else◌, Result, ok, err, ◌>>=◌, ok_or,
}
use native.Mathlib.Nat.{pow-suc, one-le-pow, add-mul, mul_assoc, mul_comm, le-mul_of_pos_right}
use axsh.Base64.{codes}
use axsh.Duration.{
  NumberError, invalid_digit, pos_overflow, DurationError, number, overflow_panic, to_digit,
  unless_overflow, parse_digits, parse_u64, strip_suffix, of_units, parsed_units, parse_duration,
}

abbrev pub IsDigit : ℕ → Type 0
IsDigit b = (48 ≤ b) × (b ≤ 57)

-- The number that decimal digits are written for: each stands for its multiple of a power of ten.
unfoldable pub value : Bytes → ℕ
value [] = 0
value (b ∷ rest) = (b - 48) * 10 ^ length rest + value rest

to_digit-IsDigit : (b : ℕ) → IsDigit b → to_digit b ≡ some (b - 48)
unfolding to_digit
to_digit-IsDigit b h = ground (arith, h.0, h.1)

shift : (n d k p v : ℕ) → p ≡ k * 10 → (n * 10 + d) * k + v ≡ n * p + (d * k + v)
shift n d k p v e =
    rw e
      (omega (arith, add-mul (n * 10) d k, mul_assoc n 10 k, ap (λ (x : ℕ). n * x) (mul_comm 10 k)))

-- The loop, with what is read and what is to come below the limit.
parse_digits-value :
    (n : ℕ) (ds : Bytes)
    → All IsDigit ds
    → n * 10 ^ length ds + value ds < 2 ^ 64
    → parse_digits n ds ≡ ok (n * 10 ^ length ds + value ds)
unfolding parse_digits value
parse_digits-value n [] h fits = ap ok (omega arith)
parse_digits-value n (b ∷ ds) h fits =
    let k = 10 ^ length ds in
    let d = b - 48 in
    let pos : 1 ≤ k = one-le-pow (length ds) 10 (omega arith) in
    let same : (n * 10 + d) * k + value ds ≡ n * 10 ^ suc (length ds) + (d * k + value ds) =
      shift n d k (10 ^ suc (length ds)) (value ds) (pow-suc 10 (length ds)) in
    let grows : n * 10 + d ≤ (n * 10 + d) * k = le-mul_of_pos_right (n * 10 + d) pos in
    let below : ltb (n * 10 + d) (2 ^ 64) ≡ true = ground arith in
    rw (to_digit-IsDigit b h.0, below)
      (parse_digits-value (n * 10 + d) ds h.1 (omega arith) ∙ ap ok same)

strip_suffix-append : (c : ℕ) (xs : Bytes) → strip_suffix c (xs ++ (c ∷ [])) ≡ some xs
unfolding strip_suffix
strip_suffix-append c [] = rw (==_refl c)
strip_suffix-append c (x ∷ []) = rw (==_refl c)
strip_suffix-append c (x ∷ (y ∷ xs)) = rw (strip_suffix-append c (y ∷ xs))

strip_suffix-other :
    (c b : ℕ) (xs : Bytes) → (b == c) ≡ false → strip_suffix c (xs ++ (b ∷ [])) ≡ none
unfolding strip_suffix
strip_suffix-other c b [] h = rw h
strip_suffix-other c b (x ∷ []) h = rw h
strip_suffix-other c b (x ∷ (y ∷ xs)) h = rw (strip_suffix-other c b (y ∷ xs) h)

-- A character that is no digit, wherever it stands.
parse_digits-bad :
    (n c : ℕ) (xs : Bytes)
    → to_digit c ≡ none
    → (e : NumberError) × (parse_digits n (xs ++ (c ∷ [])) ≡ err e)
unfolding parse_digits
parse_digits-bad n c [] h = (invalid_digit, rw h)
parse_digits-bad n c (x ∷ xs) h = digit (to_digit x) (λ more. parse_digits-bad more c xs h)
  where
    Bad : Result NumberError ℕ → Type 0
    Bad r = (e : NumberError) × (r ≡ err e)

    digit :
        (d : Option ℕ)
        → ((more : ℕ) → Bad (parse_digits more (xs ++ (c ∷ []))))
        → Bad (
            ok_or d invalid_digit >>= λ digit.
            unless_overflow (n * 10 + digit) >>= λ more. parse_digits more (xs ++ (c ∷ [])))
    digit none go = (invalid_digit, refl)
    digit (some d) go = elim (Bool-cases (ltb (n * 10 + d) (2 ^ 64))) [
      | inl fits ↦ let (e, p) = go (n * 10 + d) in (e, rw fits p)
      | inr big ↦ (pos_overflow, rw big)
    ]

parse_u64-bad :
    (c : ℕ) (xs : Bytes)
    → to_digit c ≡ none
    → (c == 43) ≡ false
    → (e : NumberError) × (parse_u64 (xs ++ (c ∷ [])) ≡ err e)
unfolding parse_u64
parse_u64-bad c [] h other = let (e, p) = parse_digits-bad 0 c [] h in (e, rw other p)
parse_u64-bad c (x ∷ xs) h other = elim (Bool-cases (x == 43)) [
  | inl plus ↦ signed plus xs
  | inr digits ↦ let (e, p) = parse_digits-bad 0 c (x ∷ xs) h in (e, rw digits p)
]
  where
    signed :
        (x == 43) ≡ true
        → (xs : Bytes) → (e : NumberError) × (parse_u64 ((x ∷ xs) ++ (c ∷ [])) ≡ err e)
    signed plus [] = let (e, p) = parse_digits-bad 0 c [] h in (e, rw plus p)
    signed plus (y ∷ xs) = let (e, p) = parse_digits-bad 0 c (y ∷ xs) h in (e, rw plus p)

-- A text that ends in `ms` is refused, whatever stands before that.
pub parse_duration-ms :
    (text : Bytes) → (e : NumberError) × (parse_duration (text ++ codes "ms") ≡ err (number e))
unfolding parse_duration parsed_units to_digit
parse_duration-ms text =
    let (e, p) = parse_u64-bad 109 text refl refl in
    (
      e,
      rw
          (
            sym (append_assoc text (109 ∷ []) (115 ∷ [])),
            strip_suffix-append 115 (text ++ (109 ∷ [])),
            p,
          )
          refl,
    )

parse_u64-value :
    (ds : Bytes) → All IsDigit ds → 1 ≤ length ds → value ds < 2 ^ 64 → parse_u64 ds ≡ ok (value ds)
unfolding parse_u64
parse_u64-value [] h n fits = absurd (omega arith)
parse_u64-value (b ∷ ds) h n fits =
    let digit : (b == 43) ≡ false = ground (arith, h.0.0) in
    rw digit (parse_digits-value 0 (b ∷ ds) h (omega arith) ∙ ap ok (omega arith))

-- So many seconds, if a `u64` holds them.
abbrev pub seconds : ℕ → Result DurationError ℕ
seconds n = if ltb n (2 ^ 64) then ok n else err overflow_panic

strip_suffix-digits : (c : ℕ) (ds : Bytes) → 58 ≤ c → All IsDigit ds → strip_suffix c ds ≡ none
unfolding strip_suffix
strip_suffix-digits c [] h k = refl
strip_suffix-digits c (b ∷ []) h k =
    let other : (b == c) ≡ false = ground (arith, k.0.1) in rw other
strip_suffix-digits c (b ∷ (x ∷ ds)) h k = rw (strip_suffix-digits c (x ∷ ds) h k.1)

-- A decimal number without a suffix or with `s` is so many seconds, with `m` so many minutes and with
-- `h` so many hours, if the number and the seconds fit 64 bits; where only the seconds do not, the
-- parser panics.
pub parse_duration-value :
    (ds : Bytes)
    → All IsDigit ds
    → 1 ≤ length ds
    → value ds < 2 ^ 64
    → (parse_duration ds ≡ seconds (value ds))
      × (parse_duration (ds ++ codes "s") ≡ seconds (value ds))
      × (parse_duration (ds ++ codes "m") ≡ seconds (value ds * 60))
      × (parse_duration (ds ++ codes "h") ≡ seconds (value ds * 3600))
unfolding parse_duration parsed_units
parse_duration-value ds h n fits =
    let read = parse_u64-value ds h n fits in
    let plain = strip_suffix-digits 115 ds (omega arith) h in
    let plain_m = strip_suffix-digits 109 ds (omega arith) h in
    let plain_h = strip_suffix-digits 104 ds (omega arith) h in
    (
      rw (plain, plain_m, plain_h, read) (one (value ds)),
      rw (strip_suffix-append 115 ds, read) (one (value ds)),
      rw (strip_suffix-other 115 109 ds refl, strip_suffix-append 109 ds, read) (sixty (value ds)),
      rw
          (
            strip_suffix-other 115 104 ds refl,
            strip_suffix-other 109 104 ds refl,
            strip_suffix-append 104 ds,
            read,
          )
          (hour (value ds)),
    )
  where
    one : (v : ℕ) → of_units 1 v ≡ seconds v
    one v = ground arith

    sixty : (v : ℕ) → of_units 60 v ≡ seconds (v * 60)
    sixty v = ground arith

    hour : (v : ℕ) → of_units 3600 v ≡ seconds (v * 3600)
    hour v = ground arith
