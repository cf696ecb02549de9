-- ===== src/Media/Floats.antt =====
-- The `float64` and `float32` operations that the voice detector uses. Their rounding is left open:
-- every theorem holds for any such operations.
use gopbx.Prelude.{ℕ, ℤ, Bool}

pub record Floats : Type 1 where
  pub Float64 : Type 0
  pub Float32 : Type 0
  pub of_int : ℤ → Float64
  -- `decimal n k` and `decimal32 n k` are the literals n / 10^k.
  pub decimal : ℕ → ℕ → Float64
  pub decimal32 : ℕ → ℕ → Float32
  pub widen : Float32 → Float64
  pub add : Float64 → Float64 → Float64
  pub mul : Float64 → Float64 → Float64
  pub quotient : Float64 → Float64 → Float64
  pub sqrt : Float64 → Float64
  pub maximum : Float64 → Float64 → Float64
  pub le : Float64 → Float64 → Bool
  pub lt : Float64 → Float64 → Bool
  pub le32 : Float32 → Float32 → Bool
  pub lt32 : Float32 → Float32 → Bool
