-- ===== src/Python/Numbers.antt =====
-- Python's unbounded integers.
use kernl.Prelude.{ℕ}

-- `negsuc n` is -(n + 1).
pub data ℤ : Type 0 where
  pos : ℕ → ℤ
  negsuc : ℕ → ℤ
