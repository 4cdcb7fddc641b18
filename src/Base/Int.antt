-- ===== src/Base/Int.antt =====
-- Signed integers over the native numbers, for the `int` values of the sources.
use checker_olimp.Base.{ℕ}

-- `negsuc n` is -(n + 1).
pub data ℤ : Type 0 where
  pos : ℕ → ℤ
  negsuc : ℕ → ℤ
