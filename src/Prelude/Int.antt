-- ===== src/Prelude/Int.antt =====
-- Go's signed integers, as integers without a width.
use fluxplane_dex.Prelude.{ℕ}

-- `negsuc n` is -(n + 1).
pub data ℤ : Type 0 where
  pos : ℕ → ℤ
  negsuc : ℕ → ℤ
