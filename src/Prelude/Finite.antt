-- ===== src/Prelude/Finite.antt =====
-- Claims over a small range of numbers, checked value by value.
use Prim.Native.Nat.{ℕ, zero, suc, ◌<◌}
use mathlib.Core.Path.{◌≡◌}
use mathlib.Core.Bool.{Bool, true, ◌&&◌}
use native.Mathlib.Omega.{arith}

-- Whether a test holds of every number below a bound, the largest one first.
unfoldable pub every_below : ℕ → (ℕ → Bool) → Bool
every_below zero test = true
every_below (suc bound) test = test bound && every_below bound test

module _ (test : ℕ → Bool) where
  pub every_below-at : (bound m : ℕ) → every_below bound test ≡ true → m < bound → test m ≡ true
  unfolding every_below
  every_below-at zero m checked small = absurd (omega arith)
  every_below-at (suc bound) m checked small = ground (arith, every_below-at bound m)
