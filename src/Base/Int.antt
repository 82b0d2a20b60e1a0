-- ===== src/Base/Int.antt =====
-- The integers over the native numbers, for results that may be negative.
use Prim.Native.Nat.{ℕ}

pub data ℤ : Type 0 where
  pos : ℕ → ℤ
  -- `negsuc n` is -1 - n.
  negsuc : ℕ → ℤ
