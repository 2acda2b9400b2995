-- ===== src/Prelude/Tables.antt =====
-- A property of small numbers that evaluation decides.
use Prim.Native.Nat.{ℕ, zero, suc, ◌<◌}
use mathlib.Core.Path.{◌≡◌}
use mathlib.Core.Logic.{◌⊎◌, inl, inr}
use mathlib.Core.Bool.{Bool, true, false}
use native.Mathlib.Omega.{arith}
use axsh.Prelude.Tests.{if◌then◌else◌, Bool-cases}

-- `test` holds of `n - 1`, ..., 1 and 0.
unfoldable pub every : (ℕ → Bool) → ℕ → Bool
every test zero = true
every test (suc n) = let others = every test n in if test n then others else false

below_suc : (x n : ℕ) → x < suc n → (x ≡ n) ⊎ (x < n)
below_suc x n h = omega arith

pub every_sound : (test : ℕ → Bool) (n : ℕ) → every test n ≡ true → (x : ℕ) → x < n → test x ≡ true
unfolding every
every_sound test zero e x h = absurd (omega arith)
every_sound test (suc n) e x h = elim (Bool-cases (test n)) [
  | inl holds ↦ elim (below_suc x n h) [
    | inl same ↦ rw same holds
    | inr less ↦ every_sound test n (rw holds at e) x less
  ]
  | inr fails ↦ cc (rw fails at e)
]
