-- ===== src/Base/Int.antt =====
-- The integers that Go's `int64` values stand for.
use Prim.Native.Nat.{ℕ}
use mathlib.Core.Bool.{Bool, true, false}

-- `negsuc n` is -(n + 1).
pub data ℤ : Type 0 where
  pos : ℕ → ℤ
  negsuc : ℕ → ℤ

abbrev pub is_nonneg : ℤ → Bool
is_nonneg (pos _) = true
is_nonneg (negsuc _) = false
