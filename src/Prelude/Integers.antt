-- ===== src/Prelude/Integers.antt =====
-- The integers over the native numbers, under the library's names, and the tests on them that the
-- program makes.
use Prim.Native.Nat.{ℕ, ◌+◌, ◌-◌, ◌*◌, ◌^◌}
use mathlib.Core.Bool.{Bool, true, false}
use commerce_data_platform.Prelude.Tests.{ltb, ◌==◌}

-- `negsuc n` is -(n + 1).
pub data ℤ : Type 0 where
  pos negsuc : ℕ → ℤ

unfoldable pub lt_int : ℤ → ℤ → Bool
lt_int (pos a) (pos b) = ltb a b
lt_int (pos a) (negsuc b) = false
lt_int (negsuc a) (pos b) = true
lt_int (negsuc a) (negsuc b) = ltb b a

unfoldable pub eq_int : ℤ → ℤ → Bool
eq_int (pos a) (pos b) = a == b
eq_int (negsuc a) (negsuc b) = a == b
eq_int _ _ = false

-- The integer times ten to the power of the second argument.
unfoldable pub scaled : ℤ → ℕ → ℤ
scaled (pos a) k = pos (a * 10 ^ k)
scaled (negsuc a) k = negsuc ((a + 1) * 10 ^ k - 1)
