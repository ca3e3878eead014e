-- ===== src/Common/Int.antt =====
-- Signed integers: the values that Go's int16, int32 and int hold.
use Prim.Native.Nat.{ℕ}

-- `negsuc n` is -(n + 1).
pub data ℤ : Type 0 where
  pos : ℕ → ℤ
  negsuc : ℕ → ℤ
