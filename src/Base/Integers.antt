-- ===== src/Base/Integers.antt =====
-- The integers over the native numbers: `negsuc k` is −(k + 1).
use Prim.Native.Nat.{ℕ}

pub data ℤ : Type 0 where
  pos negsuc : ℕ → ℤ
