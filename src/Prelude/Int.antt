-- ===== src/Prelude/Int.antt =====
-- Signed integers over the native numbers, for the fields that use -1 as a mark.
use speculation_ledger.Prelude.{ℕ, Bool, true, false}

-- `negsuc n` is -(n + 1).
pub data ℤ : Type 0 where
  pos : ℕ → ℤ
  negsuc : ℕ → ℤ

abbrev pub is_neg : ℤ → Bool
is_neg (pos n) = false
is_neg (negsuc n) = true
