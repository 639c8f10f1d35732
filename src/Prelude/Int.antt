-- ===== src/Prelude/Int.antt =====
-- Go's `int` where a request may carry a negative number. `negsuc n` is -(n + 1).
use Prim.Native.Nat.{ℕ}

pub data ℤ : Type 0 where
  pos : ℕ → ℤ
  negsuc : ℕ → ℤ

-- `if v < 0 { v = 0 }`
abbrev pub floor_zero : ℤ → ℕ
floor_zero (pos n) = n
floor_zero (negsuc _) = 0
