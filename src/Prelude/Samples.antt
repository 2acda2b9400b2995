-- ===== src/Prelude/Samples.antt =====
-- For runs on concrete bytes: the tests that make their hypotheses computations.
use axsh.Prelude.{
  ◌≡◌, Bool, true, false, Bytes, IsByte, All, [], ◌∷◌, arith, ltb, Bool-cases, inl, inr,
  if◌then◌else◌,
}

abbrev pub all_bytes : Bytes → Bool
all_bytes [] = true
all_bytes (b ∷ bs) = let others = all_bytes bs in if ltb b 256 then others else false

pub all_bytes-All : (bs : Bytes) → all_bytes bs ≡ true → All IsByte bs
all_bytes-All [] e = tt
all_bytes-All (b ∷ bs) e = elim (Bool-cases (ltb b 256)) [
  | inl fits ↦ (ground arith, all_bytes-All bs (rw fits at e))
  | inr big ↦ cc (rw big at e)
]
