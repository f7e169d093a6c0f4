-- ===== src/Prelude/Int.antt =====
-- Go's signed `int`, where the daemon is handed one that may be negative.
use Prim.Native.Nat.{ℕ}

-- `negsuc n` is -(n + 1).
pub data ℤ : Type 0 where
  pos : ℕ → ℤ
  negsuc : ℕ → ℤ
