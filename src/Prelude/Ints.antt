-- ===== src/Prelude/Ints.antt =====
-- The integers over the native natural numbers.
use Prim.Native.Nat.{ℕ}

-- `negsuc n` is minus n and one.
pub data ℤ : Type 0 where
  pos negsuc : ℕ → ℤ
