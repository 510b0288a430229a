-- ===== src/Common/Integers.antt =====
-- Signed machine integers, far from their bounds.
use Prim.Native.Nat.{ℕ}

-- `negsuc n` is -(n + 1).
pub data ℤ : Type 0 where
  pos : ℕ → ℤ
  negsuc : ℕ → ℤ
