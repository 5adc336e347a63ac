-- ===== src/Common/Columns.antt =====
-- The column numbers of SiameseCommon.h, which wrap around at kColumnPeriod.
use siamese.Prelude.{ℕ, ◌+◌, ◌-◌, ◌/◌, ◌%◌, ◌^◌, ◌<◌, ◌≡◌, arith, Bool, true, false, leb, u32}

abbrev pub column_period : ℕ
column_period = 0x400000

unfoldable pub is_column_delta_negative : ℕ → Bool
is_column_delta_negative column_delta = leb (column_period / 2) column_delta

unfoldable pub subtract_columns : ℕ → ℕ → ℕ
subtract_columns column_a column_b = u32 (column_a + 2 ^ 32 - column_b) % column_period

unfoldable pub add_columns : ℕ → ℕ → ℕ
add_columns column_a column_b = u32 (column_a + column_b) % column_period

unfoldable pub increment_column1 : ℕ → ℕ
increment_column1 column = add_columns column 1

-- For two columns below the period, their difference, added back, gives the first one, and their
-- sum less the second gives the first.
pub add-subtract_columns :
    (a b : ℕ)
    → a < column_period
    → b < column_period
    → (add_columns b (subtract_columns a b) ≡ a) × (subtract_columns (add_columns a b) b ≡ a)
unfolding add_columns subtract_columns
add-subtract_columns a b ha hb = (omega arith, omega arith)

-- A column that is ahead of another by less than half a period, across the wrap-around too, is
-- after it, and the other is before it.
pub columns_ordered :
    (b d : ℕ)
    → b < column_period
    → 0 < d
    → d < column_period / 2
    → (is_column_delta_negative (subtract_columns (add_columns b d) b) ≡ false)
      × (is_column_delta_negative (subtract_columns b (add_columns b d)) ≡ true)
unfolding add_columns subtract_columns is_column_delta_negative
columns_ordered b d hb hd k = (ground arith, ground arith)
