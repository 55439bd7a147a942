-- ===== src/Common/Int.antt =====
-- Signed numbers, for an `int` that the code compares with bounds; `negsuc n` is -(n + 1).
use Prim.Native.Nat.{ℕ}

pub data ℤ : Type 0 where
  pos : ℕ → ℤ
  negsuc : ℕ → ℤ
