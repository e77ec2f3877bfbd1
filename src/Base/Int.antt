-- ===== src/Base/Int.antt =====
-- Whole numbers with a sign over the native numbers, and their order.
use arbitrage_runtime.Base.{Bool, false, ltb, not, true, ℕ}

pub data ℤ : Type 0 where
  pos : ℕ → ℤ
  negsuc : ℕ → ℤ

unfoldable pub int_ltb : ℤ → ℤ → Bool
int_ltb (pos a) (pos b) = ltb a b
int_ltb (pos a) (negsuc b) = false
int_ltb (negsuc a) (pos b) = true
int_ltb (negsuc a) (negsuc b) = ltb b a

abbrev pub int_leb : ℤ → ℤ → Bool
int_leb a b = not (int_ltb b a)
