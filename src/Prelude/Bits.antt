-- ===== src/Prelude/Bits.antt =====
-- Laws of `bit_and`, `bit_or` and `bit_xor` at variables, from the recursion on digits.
use Prim.Native.Nat.{ℕ, zero, suc, ◌+◌, ◌-◌, ◌*◌, ◌/◌, ◌%◌, ◌^◌, ◌≤◌, ◌<◌, min, max}
use Prim.Native.Nat.{
  bit_and, bit_or, bit_xor, digits, bit_and-bitwise, bit_or-bitwise, bit_xor-bitwise,
}
use mathlib.Core.Path.{◌≡◌, refl, ap, ◌∙◌}
use native.Mathlib.Omega.{arith}
use Prim.Native.Nat.{differ}
use native.Mathlib.Nat.{pow-suc, one-le-pow}

-- Digits beyond the bits of the first number change nothing.
module _ (base : ℕ → ℕ) (op : ℕ → ℕ → ℕ) where
  settled :
      (bound fuel x y : ℕ)
      → fuel ≤ bound
      → x ≤ fuel
      → digits base op fuel x y ≡ digits base op x x y
  settled bound fuel zero y small enough = no_bits fuel
    where
      no_bits : (fuel : ℕ) → digits base op fuel zero y ≡ digits base op zero zero y
      no_bits zero = refl
      no_bits (suc fuel) = refl
  settled bound zero (suc x) y small enough = absurd (omega arith)
  settled zero (suc fuel) (suc x) y small enough = absurd (omega arith)
  settled (suc bound) (suc fuel) (suc x) y small enough =
      let here = settled bound fuel (suc x / 2) (y / 2) (omega arith) (omega arith) in
      let there = settled bound x (suc x / 2) (y / 2) (omega arith) (omega arith) in
      rw (here, there)

  halved : (x y : ℕ) → digits base op x (suc x / 2) y ≡ digits base op (suc x / 2) (suc x / 2) y
  halved x y = settled x x (suc x / 2) y (omega arith) (omega arith)

-- The lowest bit of each operation, before the rest of it.
pub bit_and_lowest : (x y : ℕ) → bit_and x y ≡ min (x % 2) (y % 2) + 2 * bit_and (x / 2) (y / 2)
bit_and_lowest zero y = omega (arith, bit_and-bitwise 0 (y / 2), bit_and-bitwise 0 y)
bit_and_lowest (suc x) y =
    let tail = halved (λ y. 0) min x (y / 2) in
    omega (arith, tail, bit_and-bitwise (suc x / 2) (y / 2), bit_and-bitwise (suc x) y)

pub bit_or_lowest : (x y : ℕ) → bit_or x y ≡ max (x % 2) (y % 2) + 2 * bit_or (x / 2) (y / 2)
bit_or_lowest zero y = omega (arith, bit_or-bitwise 0 (y / 2), bit_or-bitwise 0 y)
bit_or_lowest (suc x) y =
    let tail = halved (λ y. y) max x (y / 2) in
    omega (arith, tail, bit_or-bitwise (suc x / 2) (y / 2), bit_or-bitwise (suc x) y)

differ_mod : (x y : ℕ) → differ (x % 2) (y % 2) ≡ (x + y) % 2
differ_mod x y = digit (x % 2) (y % 2) (omega arith) (omega arith) ∙ omega arith
  where
    digit : (p q : ℕ) → p < 2 → q < 2 → differ p q ≡ (p + q) % 2
    digit zero zero h k = refl
    digit zero (suc zero) h k = refl
    digit (suc zero) zero h k = refl
    digit (suc zero) (suc zero) h k = refl
    digit zero (suc (suc q)) h k = absurd (omega arith)
    digit (suc zero) (suc (suc q)) h k = absurd (omega arith)
    digit (suc (suc p)) q h k = absurd (omega arith)

pub bit_xor_lowest : (x y : ℕ) → bit_xor x y ≡ (x + y) % 2 + 2 * bit_xor (x / 2) (y / 2)
bit_xor_lowest zero y = omega (arith, bit_xor-bitwise 0 (y / 2), bit_xor-bitwise 0 y)
bit_xor_lowest (suc x) y =
    let tail = halved (λ y. y) differ x (y / 2) in
    omega (
      arith,
      tail,
      bit_xor-bitwise (suc x / 2) (y / 2),
      bit_xor-bitwise (suc x) y,
      differ_mod (suc x) y,
    )

-- Induction on a bound of the first argument halves it at each step.
bit_or-zero_below : (n a : ℕ) → a ≤ n → bit_or a 0 ≡ a
bit_or-zero_below n zero h = refl
bit_or-zero_below zero (suc a) h = absurd (omega arith)
bit_or-zero_below (suc n) (suc a) h =
    omega (arith, bit_or_lowest (suc a) 0, bit_or-zero_below n (suc a / 2) (omega arith))

bit_and-zero_below : (n a : ℕ) → a ≤ n → bit_and a 0 ≡ 0
bit_and-zero_below n zero h = refl
bit_and-zero_below zero (suc a) h = absurd (omega arith)
bit_and-zero_below (suc n) (suc a) h =
    omega (arith, bit_and_lowest (suc a) 0, bit_and-zero_below n (suc a / 2) (omega arith))

double : (q k : ℕ) → q * 2 ^ suc k ≡ 2 * (q * 2 ^ k)
double q k = omega (arith, ap (λ (t : ℕ). q * t) (pow-suc 2 k))

-- `(q << k) | r` is a sum when `r` has at most `k` bits.
pub bit_or_sum : (k q r : ℕ) → r < 2 ^ k → bit_or (q * 2 ^ k) r ≡ q * 2 ^ k + r
bit_or_sum zero q r h = ground (arith, bit_or-zero_below q q)
bit_or_sum (suc k) q r h =
    ground
      (arith, bit_or_lowest (q * 2 ^ suc k) r, double q k, bit_or_sum k q (r / 2) (omega arith))

-- `x & (2 ^ k - 1)` is a remainder.
pub bit_and_low : (k a : ℕ) → bit_and a (2 ^ k - 1) ≡ a % 2 ^ k
bit_and_low k a = ground (arith, one-le-pow k 2, split k (a / 2 ^ k) (a % 2 ^ k))
  where
    split : (k q r : ℕ) → r < 2 ^ k → bit_and (q * 2 ^ k + r) (2 ^ k - 1) ≡ r
    split zero q r h =
        rw (bit_and-zero_below (q * 2 ^ 0 + r) (q * 2 ^ 0 + r) (omega arith)) (omega arith)
    split (suc k) q r h = ground (
      arith,
      bit_and_lowest (q * 2 ^ suc k + r) (2 ^ suc k - 1),
      double q k,
      pow-suc 2 k,
      split k q (r / 2) (omega arith),
    )

-- Exclusive or stays within `k` bits and is its own inverse.
pub bit_xor-lt : (k a b : ℕ) → a < 2 ^ k → b < 2 ^ k → bit_xor a b < 2 ^ k
bit_xor-lt zero zero zero h g = omega (arith, bit_xor-bitwise 0 0)
bit_xor-lt zero zero (suc b) h g = absurd (omega arith)
bit_xor-lt zero (suc a) b h g = absurd (omega arith)
bit_xor-lt (suc k) a b h g = omega (
  arith,
  pow-suc 2 k,
  bit_xor_lowest a b,
  bit_xor-lt k (a / 2) (b / 2) (omega (arith, pow-suc 2 k)) (omega (arith, pow-suc 2 k)),
)

pub bit_xor-cancel_right : (k a b : ℕ) → a < 2 ^ k → b < 2 ^ k → bit_xor (bit_xor a b) b ≡ a
bit_xor-cancel_right zero zero zero h g = refl
bit_xor-cancel_right zero zero (suc b) h g = absurd (omega arith)
bit_xor-cancel_right zero (suc a) b h g = absurd (omega arith)
bit_xor-cancel_right (suc k) a b h g =
    let halves : bit_xor a b / 2 ≡ bit_xor (a / 2) (b / 2) = omega (arith, bit_xor_lowest a b) in
    let below : bit_xor (bit_xor (a / 2) (b / 2)) (b / 2) ≡ a / 2 =
      bit_xor-cancel_right k (a / 2) (b / 2) (omega (arith, pow-suc 2 k))
        (omega (arith, pow-suc 2 k)) in
    let inner : bit_xor (bit_xor a b / 2) (b / 2) ≡ a / 2 = rw halves below in
    omega (arith, bit_xor_lowest a b, bit_xor_lowest (bit_xor a b) b, inner)

pub bit_xor_comm : (k a b : ℕ) → a < 2 ^ k → b < 2 ^ k → bit_xor a b ≡ bit_xor b a
bit_xor_comm zero zero zero h g = refl
bit_xor_comm zero zero (suc b) h g = absurd (omega arith)
bit_xor_comm zero (suc a) b h g = absurd (omega arith)
bit_xor_comm (suc k) a b h g = omega (
  arith,
  bit_xor_lowest a b,
  bit_xor_lowest b a,
  bit_xor_comm k (a / 2) (b / 2) (omega (arith, pow-suc 2 k)) (omega (arith, pow-suc 2 k)),
)

-- A top bit that only the second number has is kept.
pub bit_xor-top : (k a b : ℕ) → a < 2 ^ k → b < 2 ^ k → bit_xor a (2 ^ k + b) ≡ 2 ^ k + bit_xor a b
bit_xor-top zero zero zero h g = refl
bit_xor-top zero zero (suc b) h g = absurd (omega arith)
bit_xor-top zero (suc a) b h g = absurd (omega arith)
bit_xor-top (suc k) a b h g =
    let half : (2 ^ suc k + b) / 2 ≡ 2 ^ k + b / 2 = omega (arith, pow-suc 2 k) in
    let below : bit_xor (a / 2) ((2 ^ suc k + b) / 2) ≡ 2 ^ k + bit_xor (a / 2) (b / 2) =
      rw half
        (bit_xor-top k (a / 2) (b / 2) (omega (arith, pow-suc 2 k)) (omega (arith, pow-suc 2 k))) in
    omega (arith, pow-suc 2 k, bit_xor_lowest a (2 ^ suc k + b), bit_xor_lowest a b, below)

pub bit_xor-injective_left :
    (k a b c : ℕ) → a < 2 ^ k → b < 2 ^ k → c < 2 ^ k → bit_xor a c ≡ bit_xor b c → a ≡ b
bit_xor-injective_left k a b c h g m e =
    cc (bit_xor-cancel_right k a c h m, bit_xor-cancel_right k b c g m)

pub bit_xor-injective_right :
    (k a b c : ℕ) → a < 2 ^ k → b < 2 ^ k → c < 2 ^ k → bit_xor c a ≡ bit_xor c b → a ≡ b
bit_xor-injective_right k a b c h g m e =
    bit_xor-injective_left k a b c h g m (cc (bit_xor_comm k a c h m, bit_xor_comm k b c g m))
