-- ===== src/Common/Int.antt =====
-- A C++ int: `negsuc n` is -(n + 1).
use post2usenet.Common.{ℕ, Bool, true, ltb}

pub data ℤ : Type 0 where
  pos : ℕ → ℤ
  negsuc : ℕ → ℤ

-- `i < 1`
unfoldable pub lt_one : ℤ → Bool
lt_one (pos n) = ltb n 1
lt_one (negsuc n) = true
