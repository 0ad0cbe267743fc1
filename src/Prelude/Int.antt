-- ===== src/Prelude/Int.antt =====
-- Python's `int`, where it may be negative.
use Prim.Native.Nat.{ℕ}

-- `n`, or `-(n + 1)`
pub data ℤ : Type 0 where
  pos negsuc : ℕ → ℤ
