-- ===== src/Prelude/Float.antt =====
-- float64. A value is its IEEE 754 bit pattern; the arithmetic of Go and of its `math` package is
-- a parameter, since it is implemented by the compiler and the hardware.
use griefer_security_platfor.Prelude.Int.{ℤ}
use Prim.Native.Nat.{ℕ}
use mathlib.Core.Bool.{Bool}

abbrev pub Float64 : Type 0
Float64 = ℕ

pub record FloatOps : Type 0 where
  pub add : Float64 → Float64 → Float64
  pub sub : Float64 → Float64 → Float64
  pub mul : Float64 → Float64 → Float64
  pub div : Float64 → Float64 → Float64
  pub neg : Float64 → Float64
  pub less : Float64 → Float64 → Bool
  -- `<=`, which like `<` is false where an operand is not a number
  pub at_most : Float64 → Float64 → Bool
  pub is_nan : Float64 → Bool
  -- math.Exp and math.Round
  pub exp : Float64 → Float64
  pub round : Float64 → Float64
  -- float64(n), int(x), and the constant n / 100
  pub of_int : ℕ → Float64
  pub to_int : Float64 → ℤ
  pub hundredths : ℕ → Float64
