-- ===== src/Prelude/Memory.antt =====
-- Byte-addressed memory. An address is a number and 0 is the null pointer; a store replaces one byte.
-- `Agree` compares two memories over a range.
use Prim.Native.Nat.{ℕ, ◌≤◌, ◌<◌, ◌^◌}
use mathlib.Core.Path.{◌≡◌}
use mathlib.Core.Option.{Option, none, some}
use siamese.Prelude.Tests.{◌==◌, if◌then◌else◌}

abbrev pub Memory : Type 0
Memory = ℕ → ℕ

abbrev pub store : Memory → ℕ → ℕ → Memory
store m a v j = if j == a then v else m j

-- Every address holds a byte.
abbrev pub IsBytes : Memory → Type 0
IsBytes m = (j : ℕ) → m j < 2 ^ 8

-- The memories are equal from address `lo` up to, not including, `hi`.
abbrev pub Agree : Memory → Memory → ℕ → ℕ → Type 0
Agree m m' lo hi = (j : ℕ) → lo ≤ j → j < hi → m j ≡ m' j

-- A field was read from inside the space that was given: at most `most` bytes, and a value below
-- `limit`. A refused field claims nothing.
abbrev pub WithinSpace : ℕ → ℕ → ℕ → Option (ℕ × ℕ) → Type 0
WithinSpace space most limit none = Unit {0}
WithinSpace space most limit (some (k, v)) = (1 ≤ k) × (k ≤ most) × (k ≤ space) × (v < limit)
