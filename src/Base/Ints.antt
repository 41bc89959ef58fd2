-- ===== src/Base/Ints.antt =====
-- Integers over the native numbers, for arguments that the source checks for their sign.
use Prim.Native.Nat.{ℕ}

-- `negsuc n` is -(n + 1).
pub data ℤ : Type 0 where
  pos negsuc : ℕ → ℤ
