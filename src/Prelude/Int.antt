-- ===== src/Prelude/Int.antt =====
-- `int` values: the sign and size that the code's comparisons read.
use Prim.Native.Nat.{ℕ, ◌-◌, ◌^◌}
use mathlib.Core.Bool.{Bool, true}
use siamese.Prelude.Tests.{ltb, if◌then◌else◌}

-- `negsuc n` is -(n + 1).
pub data ℤ : Type 0 where
  pos : ℕ → ℤ
  negsuc : ℕ → ℤ

abbrev pub pos_part : ℤ → ℕ
pos_part (pos n) = n
pos_part (negsuc n) = 0

-- An `int` below a number that is not negative.
abbrev pub int_ltb : ℤ → ℕ → Bool
int_ltb (pos n) k = ltb n k
int_ltb (negsuc n) k = true

-- A 32-bit `unsigned` passed where an `int` is wanted.
abbrev pub int_of_u32 : ℕ → ℤ
int_of_u32 n = if ltb n (2 ^ 31) then pos n else negsuc (2 ^ 32 - n - 1)
