-- ===== src/Hdlc/Fcs.antt =====
-- `update_fcs` of src/hdlc.rs as a function on 16-bit values: its range, and that it loses nothing.
use Prim.Native.Nat.{bit_xor}
use axsh.Prelude.{ℕ, zero, suc, ◌/◌, ◌^◌, ◌≤◌, ◌<◌, ◌≡◌, refl, Bytes, IsByte, All}
use axsh.Prelude.{[], ◌∷◌, ◌++◌, arith}
use axsh.Prelude.Bits.{
  bit_and_low, bit_xor-lt, bit_xor-top, bit_xor-injective_left, bit_xor-injective_right,
}
use axsh.Hdlc.{fcs_poly, shift_fcs, shifts, update_fcs, fold_fcs}

abbrev pub IsU16 : ℕ → Type 0
IsU16 x = x < 2 ^ 16

pub shift_fcs-IsU16 : (f : ℕ) → IsU16 f → IsU16 (shift_fcs f)
unfolding shift_fcs
shift_fcs-IsU16 f h = ground (arith, bit_xor-lt 16 (f / 2) fcs_poly)

poly-top : (x : ℕ) → x < 2 ^ 15 → 2 ^ 15 ≤ bit_xor x fcs_poly
poly-top x h = omega (arith, bit_xor-top 15 x 0x408 h (omega arith))

-- The polynomial's top bit tells an odd value from an even one.
shift_fcs-injective : (f g : ℕ) → IsU16 f → IsU16 g → shift_fcs f ≡ shift_fcs g → f ≡ g
unfolding shift_fcs
shift_fcs-injective f g h k = ground (
  arith,
  bit_and_low 1 f,
  bit_and_low 1 g,
  poly-top (f / 2),
  poly-top (g / 2),
  bit_xor-injective_left 16 (f / 2) (g / 2) fcs_poly,
)

pub shifts-IsU16 : (n f : ℕ) → IsU16 f → IsU16 (shifts n f)
unfolding shifts
shifts-IsU16 zero f h = h
shifts-IsU16 (suc n) f h = shifts-IsU16 n (shift_fcs f) (shift_fcs-IsU16 f h)

shifts-injective : (n f g : ℕ) → IsU16 f → IsU16 g → shifts n f ≡ shifts n g → f ≡ g
unfolding shifts
shifts-injective zero f g h k e = e
shifts-injective (suc n) f g h k e =
    shift_fcs-injective f g h k
      (shifts-injective n (shift_fcs f) (shift_fcs g) (shift_fcs-IsU16 f h) (shift_fcs-IsU16 g k) e)

pub update_fcs-IsU16 : (f b : ℕ) → IsU16 f → IsByte b → IsU16 (update_fcs f b)
unfolding update_fcs
update_fcs-IsU16 f b h k = shifts-IsU16 8 _ (bit_xor-lt 16 f b h (omega arith))

pub update_fcs-injective_left :
    (f g b : ℕ) → IsU16 f → IsU16 g → IsByte b → update_fcs f b ≡ update_fcs g b → f ≡ g
unfolding update_fcs
update_fcs-injective_left f g b h k m e = bit_xor-injective_left 16 f g b h k (omega arith) (
    shifts-injective 8 _ _ (bit_xor-lt 16 f b h (omega arith)) (bit_xor-lt 16 g b k (omega arith))
      e)

pub update_fcs-injective_right :
    (f a b : ℕ) → IsU16 f → IsByte a → IsByte b → update_fcs f a ≡ update_fcs f b → a ≡ b
unfolding update_fcs
update_fcs-injective_right f a b h k m e =
    bit_xor-injective_right 16 a b f (omega arith) (omega arith) h (
      shifts-injective 8 _ _ (bit_xor-lt 16 f a h (omega arith)) (bit_xor-lt 16 f b h (omega arith))
        e)

pub fold_fcs-IsU16 : (bs : Bytes) (f : ℕ) → All IsByte bs → IsU16 f → IsU16 (fold_fcs f bs)
unfolding fold_fcs
fold_fcs-IsU16 [] f a h = h
fold_fcs-IsU16 (b ∷ bs) f a h = fold_fcs-IsU16 bs (update_fcs f b) a.1 (update_fcs-IsU16 f b h a.0)

pub fold_fcs-injective :
    (bs : Bytes) (f g : ℕ)
    → All IsByte bs
    → IsU16 f
    → IsU16 g
    → fold_fcs f bs ≡ fold_fcs g bs
    → f ≡ g
unfolding fold_fcs
fold_fcs-injective [] f g a h k e = e
fold_fcs-injective (b ∷ bs) f g a h k e = update_fcs-injective_left f g b h k a.0 (
    fold_fcs-injective bs (update_fcs f b) (update_fcs g b) a.1 (update_fcs-IsU16 f b h a.0)
      (update_fcs-IsU16 g b k a.0) e)

pub fold_fcs-append : (xs ys : Bytes) (f : ℕ) → fold_fcs f (xs ++ ys) ≡ fold_fcs (fold_fcs f xs) ys
unfolding fold_fcs
fold_fcs-append [] ys f = refl
fold_fcs-append (x ∷ xs) ys f = fold_fcs-append xs ys (update_fcs f x)
