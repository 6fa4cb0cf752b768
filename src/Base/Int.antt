-- ===== src/Base/Int.antt =====
-- Signed integers over the native numbers, as far as the program compares and subtracts them.
use Prim.Native.Nat.{ℕ, suc, ◌+◌, ◌-◌}
use mathlib.Core.Bool.{Bool, false}
use asio_learn.Base.Tests.{◌==◌}

-- `negsuc n` is -(n + 1).
pub data ℤ : Type 0 where
  pos : ℕ → ℤ
  negsuc : ℕ → ℤ

abbrev pub eq_ℤ : ℤ → ℤ → Bool
eq_ℤ (pos a) (pos b) = a == b
eq_ℤ (pos a) (negsuc b) = false
eq_ℤ (negsuc a) (pos b) = false
eq_ℤ (negsuc a) (negsuc b) = a == b

-- |a - b| on the numbers.
abbrev pub nat_dist : ℕ → ℕ → ℕ
nat_dist a b = (a - b) + (b - a)

-- |a - b| on the integers.
abbrev pub int_dist : ℤ → ℤ → ℕ
int_dist (pos a) (pos b) = nat_dist a b
int_dist (pos a) (negsuc b) = suc (a + b)
int_dist (negsuc a) (pos b) = suc (a + b)
int_dist (negsuc a) (negsuc b) = nat_dist a b

-- 0 for a negative number.
abbrev pub to_ℕ : ℤ → ℕ
to_ℕ (pos n) = n
to_ℕ (negsuc n) = 0

abbrev pub max : ℕ → ℕ → ℕ
max a b = a + (b - a)
