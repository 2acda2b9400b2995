-- ===== src/KeyStore/Pieces.antt =====
-- The text functions of the key files: pieces, lines and trimming.
use axsh.Prelude.{
  ℕ, ◌≡◌, ◌≢◌, refl, false, Bool-cases, inl, inr, Bytes, All, is_empty, List, [], ◌∷◌, ◌++◌, ◌==◌,
  ==→eq, arith,
}
use axsh.KeyStore.Text.{
  newline, carriage_return, is_whitespace, trim_start, trim_end, trim, split, strip_cr,
}

split-filled :
    (text : Bytes) → (piece : Bytes) × (pieces : List Bytes) × (split text ≡ piece ∷ pieces)
unfolding split
split-filled [] = ([], [], refl)
split-filled (b ∷ rest) = elim (Bool-cases (b == newline)) [
  | inl end ↦ ([], split rest, rw end)
  | inr more ↦ let (piece, pieces, e) = split-filled rest in (b ∷ piece, pieces, rw (more, e))
]

pub split-newline : (xs ys : Bytes) → split (xs ++ (newline ∷ ys)) ≡ split xs ++ split ys
unfolding split
split-newline [] ys = refl
split-newline (b ∷ xs) ys = elim (Bool-cases (b == newline)) [
  | inl end ↦ rw (end, split-newline xs ys)
  | inr more ↦ let (piece, pieces, e) = split-filled xs in rw (more, split-newline xs ys, e)
]

abbrev pub OneLine : Bytes → Type 0
OneLine = All (λ b. b ≢ newline)

pub split-line : (xs : Bytes) → OneLine xs → split xs ≡ xs ∷ []
unfolding split
split-line [] h = refl
split-line (b ∷ xs) h =
    let other : (b == newline) ≡ false = ground arith in rw (other, split-line xs h.1)

-- A carriage return is white space, at the end of a line as elsewhere.
trim_end-strip_cr : (xs : Bytes) → trim_end (strip_cr xs) ≡ trim_end xs
unfolding trim_end strip_cr
trim_end-strip_cr [] = refl
trim_end-strip_cr (b ∷ []) = elim (Bool-cases (b == carriage_return)) [
  | inl cr ↦ rw (==→eq b carriage_return cr) (unfold is_whitespace in refl)
  | inr other ↦ rw other
]
trim_end-strip_cr (b ∷ (x ∷ rest)) = rw (trim_end-strip_cr (x ∷ rest))

pub trim-strip_cr : (xs : Bytes) → trim (strip_cr xs) ≡ trim xs
unfolding trim trim_start strip_cr
trim-strip_cr [] = refl
trim-strip_cr (b ∷ []) = elim (Bool-cases (b == carriage_return)) [
  | inl cr ↦ rw (==→eq b carriage_return cr) (unfold is_whitespace in refl)
  | inr other ↦ rw other
]
trim-strip_cr (b ∷ (x ∷ rest)) = elim (Bool-cases (is_whitespace b)) [
  | inl space ↦ rw space (trim-strip_cr (x ∷ rest))
  | inr other ↦ rw other (trim_end-strip_cr (b ∷ (x ∷ rest)))
]

abbrev pub IsWord : Bytes → Type 0
IsWord = All (λ b. is_whitespace b ≡ false)

IsWord-filled : (xs ys : Bytes) (y : ℕ) → IsWord (y ∷ ys) → is_empty (xs ++ (y ∷ ys)) ≡ false
IsWord-filled [] ys y h = refl
IsWord-filled (x ∷ xs) ys y h = refl

-- A text that ends in a word has no white space at its end.
trim_end-IsWord :
    (xs ys : Bytes) (y : ℕ) → IsWord (y ∷ ys) → trim_end (xs ++ (y ∷ ys)) ≡ xs ++ (y ∷ ys)
unfolding trim_end
trim_end-IsWord [] [] y h = rw h.0
trim_end-IsWord [] (z ∷ ys) y h = rw (trim_end-IsWord [] ys z h.1)
trim_end-IsWord (x ∷ xs) ys y h = rw (trim_end-IsWord xs ys y h, IsWord-filled xs ys y h)

-- A text that begins and ends in a word is not trimmed.
pub trim-IsWord :
    (xs ys : Bytes) (x y : ℕ)
    → is_whitespace x ≡ false
    → IsWord (y ∷ ys)
    → trim ((x ∷ xs) ++ (y ∷ ys)) ≡ (x ∷ xs) ++ (y ∷ ys)
unfolding trim trim_start
trim-IsWord xs ys x y h k = rw h (trim_end-IsWord (x ∷ xs) ys y k)
