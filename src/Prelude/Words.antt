-- ===== src/Prelude/Words.antt =====
-- Fixed-width integers as bytes: `to_be_bytes`, `from_be_bytes`, `to_le_bytes` of Rust.
use Prim.Native.Nat.{ℕ, zero, suc, ◌+◌, ◌*◌, ◌/◌, ◌%◌, ◌^◌, ◌<◌}
use mathlib.Core.Path.{◌≡◌, refl, ap, sym, ◌∙◌}
use mathlib.Core.List.{[], ◌∷◌}
use native.Mathlib.Omega.{arith}
use native.Mathlib.Nat.{pow-suc, one-le-pow, div-add-mod, mod-lt, mul-add-div_right, div-eq_of_lt}
use axsh.Prelude.Lists.{Bytes, IsByte, length, All}

-- The `w` bytes of `n`, highest first.
unfoldable pub to_be_bytes : ℕ → ℕ → Bytes
to_be_bytes zero n = []
to_be_bytes (suc w) n = (n / 256 ^ w % 256) ∷ to_be_bytes w (n % 256 ^ w)

unfoldable pub from_be_bytes : Bytes → ℕ
from_be_bytes [] = 0
from_be_bytes (b ∷ bs) = b * 256 ^ length bs + from_be_bytes bs

-- `u16::to_le_bytes` and `u16::from_le_bytes`.
abbrev pub u16_to_le_bytes : ℕ → Bytes
u16_to_le_bytes n = (n % 256) ∷ (n / 256 % 256) ∷ []

abbrev pub u16_from_le_bytes : ℕ → ℕ → ℕ
u16_from_le_bytes lo hi = lo + hi * 256

pub length-to_be_bytes : (w n : ℕ) → length (to_be_bytes w n) ≡ w
unfolding to_be_bytes
length-to_be_bytes zero n = refl
length-to_be_bytes (suc w) n = omega (arith, length-to_be_bytes w (n % 256 ^ w))

pub to_be_bytes-IsByte : (w n : ℕ) → All IsByte (to_be_bytes w n)
unfolding to_be_bytes
to_be_bytes-IsByte zero n = tt
to_be_bytes-IsByte (suc w) n = (omega arith, to_be_bytes-IsByte w (n % 256 ^ w))

high_digit : (p n : ℕ) → 0 < p → n < p * 256 → n / p % 256 * p + n % p ≡ n
high_digit p n h k = grind (arith, div-add-mod n p)

pub from_be_bytes-to_be_bytes : (w n : ℕ) → n < 256 ^ w → from_be_bytes (to_be_bytes w n) ≡ n
unfolding to_be_bytes from_be_bytes
from_be_bytes-to_be_bytes zero n h = omega arith
from_be_bytes-to_be_bytes (suc w) n h =
    rw
      (
        length-to_be_bytes,
        from_be_bytes-to_be_bytes w (n % 256 ^ w) (mod-lt n (one-le-pow w 256 (omega arith))),
      )
      (high_digit (256 ^ w) n (one-le-pow w 256 (omega arith)) (omega (arith, pow-suc 256 w)))

pub from_be_bytes-lt : (bs : Bytes) → All IsByte bs → from_be_bytes bs < 256 ^ length bs
unfolding from_be_bytes
from_be_bytes-lt [] h = omega arith
from_be_bytes-lt (b ∷ bs) h = grind (arith, from_be_bytes-lt bs h.1, pow-suc 256 (length bs))

high_part : (p b f : ℕ) → f < p → b < 256 → ((b * p + f) / p % 256 ≡ b) × ((b * p + f) % p ≡ f)
high_part p b f h k =
    let q : (b * p + f) / p ≡ b =
      mul-add-div_right (omega arith) b f ∙ grind (arith, div-eq_of_lt h) in
    (rw q (omega arith), grind (arith, q, div-add-mod (b * p + f) p))

pub to_be_bytes-from_be_bytes :
    (bs : Bytes) → All IsByte bs → to_be_bytes (length bs) (from_be_bytes bs) ≡ bs
unfolding to_be_bytes from_be_bytes
to_be_bytes-from_be_bytes [] h = refl
to_be_bytes-from_be_bytes (b ∷ bs) h =
    let parts = high_part (256 ^ length bs) b (from_be_bytes bs) (from_be_bytes-lt bs h.1) h.0 in
    rw (parts.0, parts.1, to_be_bytes-from_be_bytes bs h.1)

-- Two numbers that fit are told apart by their bytes.
pub to_be_bytes-injective :
    (w m n : ℕ) → m < 256 ^ w → n < 256 ^ w → to_be_bytes w m ≡ to_be_bytes w n → m ≡ n
to_be_bytes-injective w m n h k e =
    sym (from_be_bytes-to_be_bytes w m h) ∙ ap from_be_bytes e ∙ from_be_bytes-to_be_bytes w n k
