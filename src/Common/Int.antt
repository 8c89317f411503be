-- ===== src/Common/Int.antt =====
-- The integers over the native numbers; `negsuc n` is -(n + 1).
use swe_capstone.Common.{ℕ}

pub data ℤ : Type 0 where
  pos : ℕ → ℤ
  negsuc : ℕ → ℤ
