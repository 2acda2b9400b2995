-- ===== src/KeyStore/Loaded.antt =====
-- The loop over the lines of a key file, on parts of the file.
use axsh.Prelude.{
  ℕ, suc, ◌+◌, ◌≡◌, refl, ap, ◌∙◌, Bytes, length, List, [], ◌∷◌, ◌++◌, arith, Result, ok, err,
  ◌>>=◌,
}
use axsh.KeyFile.{LineError}
use axsh.KeyStore.Text.{trim_start, trim_end, ended, strip_cr, trim, split, lines}
use axsh.KeyStore.Load.{Map, load_line, load_lines}
use axsh.KeyStore.Pieces.{trim-strip_cr}

bind-cong :
    {A B E : Type 0} (r : Result E A) (f g : A → Result E B)
    → ((a : A) → f a ≡ g a)
    → (r >>= f) ≡ (r >>= g)
bind-cong (ok a) f g h = h a
bind-cong (err e) f g h = refl

bind-then :
    {A B D E : Type 0} (r : Result E A) (f : A → Result E D) (g : A → Result E B)
    (k : B → Result E D)
    → ((a : A) → f a ≡ (g a >>= k))
    → (r >>= f) ≡ ((r >>= g) >>= k)
bind-then (ok a) f g k h = h a
bind-then (err e) f g k h = refl

module _ (entry : Bytes → Result LineError (Bytes × Bytes)) where
  pub load_lines-append :
      (n : ℕ) (map : Map) (xs ys : List Bytes)
      → load_lines entry n map (xs ++ ys)
        ≡ (load_lines entry n map xs >>= λ map. load_lines entry (n + length xs) map ys)
  unfolding load_lines
  load_lines-append n map [] ys = ap (λ (k : ℕ). load_lines entry k map ys) (omega arith)
  load_lines-append n map (x ∷ xs) ys = bind-then (load_line entry n map x) _ _ _ (λ map'.
      load_lines-append (suc n) map' xs ys
      ∙ ap (λ (k : ℕ). load_lines entry (suc n) map' xs >>= λ map. load_lines entry k map ys)
          (omega arith))

  load_line-strip_cr :
      (n : ℕ) (map : Map) (line : Bytes)
      → load_line entry n map (strip_cr line) ≡ load_line entry n map line
  unfolding load_line
  load_line-strip_cr n map line = rw (trim-strip_cr line)

  pub load_line-nil : (n : ℕ) (map : Map) → load_line entry n map [] ≡ ok map
  unfolding load_line trim trim_start trim_end
  load_line-nil n map = refl

  load_lines-ended :
      (n : ℕ) (map : Map) (pieces : List Bytes)
      → load_lines entry n map (ended pieces) ≡ load_lines entry n map pieces
  unfolding ended load_lines
  load_lines-ended n map [] = refl
  load_lines-ended n map ([] ∷ []) = rw (load_line-nil n map)
  load_lines-ended n map ((b ∷ piece) ∷ []) = refl
  load_lines-ended n map (piece ∷ (next ∷ pieces)) = rw (load_line-strip_cr n map piece) (
      bind-cong (load_line entry n map piece) _ _
        (λ map'. load_lines-ended (suc n) map' (next ∷ pieces)))

  -- The lines load like the pieces between newlines, empty ends and carriage returns included.
  pub load_lines-lines :
      (n : ℕ) (map : Map) (text : Bytes)
      → load_lines entry n map (lines text) ≡ load_lines entry n map (split text)
  unfolding lines
  load_lines-lines n map text = load_lines-ended n map (split text)
