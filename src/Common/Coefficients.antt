-- ===== src/Common/Coefficients.antt =====
-- The coefficients of columns and rows and the operation codes of SiameseCommon.h.
use siamese.Prelude.{ℕ, ◌+◌, ◌-◌, ◌*◌, ◌%◌, ◌^◌, ◌≤◌, ◌<◌, ◌≡◌, arith, bit_and, bit_xor}
use siamese.Prelude.{◌==◌, if◌then◌else◌, u8, u32, ◌<<<◌, ◌>>>◌, ◌↔◌}
use siamese.Prelude.Bits.{and_ones}
use siamese.Common.Columns.{column_period}

abbrev pub column_value_period : ℕ
column_value_period = 253

abbrev pub row_value_period : ℕ
row_value_period = 255

unfoldable pub get_column_value : ℕ → ℕ
get_column_value column = u8 (3 + u32 (column * 199) % column_value_period)

unfoldable pub get_row_value : ℕ → ℕ
get_row_value row = u8 (1 + u32 (row + 1) % row_value_period)

-- `~x` on 32 bits.
abbrev pub complement32 : ℕ → ℕ
complement32 x = 2 ^ 32 - 1 - x

unfoldable pub int32_hash : ℕ → ℕ
int32_hash key =
    let key1 = u32 (key + complement32 (u32 (key <<< 15))) in
    let key2 = bit_xor key1 (key1 >>> 10) in
    let key3 = u32 (key2 + u32 (key2 <<< 3)) in
    let key4 = bit_xor key3 (key3 >>> 6) in
    let key5 = u32 (key4 + complement32 (u32 (key4 <<< 11))) in bit_xor key5 (key5 >>> 16)

abbrev pub column_lane_count : ℕ
column_lane_count = 8

abbrev pub column_sum_count : ℕ
column_sum_count = 3

unfoldable pub get_row_opcode : ℕ → ℕ → ℕ
get_row_opcode lane row =
    let opcode =
      bit_and (int32_hash (u32 (lane + (row + 3) * column_lane_count)))
        (2 ^ (column_sum_count * 2) - 1) in
    if opcode == 0 then 2 ^ ((column_sum_count - 1) * 2) else opcode

-- For columns below the period, a column's value lies between 3 and 255, and two columns share it
-- exactly when they differ by a multiple of 253.
pub column_value_cycle :
    (a b : ℕ)
    → a < column_period
    → b < column_period
    → (3 ≤ get_column_value a)
      × (get_column_value a ≤ 255)
      × ((get_column_value a ≡ get_column_value b) ↔ (a % 253 ≡ b % 253))
unfolding get_column_value
column_value_cycle a b ha hb = (omega arith, omega arith, (λ h. omega arith, λ h. omega arith))

-- For rows below 2 ^ 32 - 1, a row's value lies between 1 and 255, and two rows share it exactly
-- when they differ by a multiple of 255.
pub row_value_cycle :
    (a b : ℕ)
    → a < 2 ^ 32 - 1
    → b < 2 ^ 32 - 1
    → (1 ≤ get_row_value a)
      × (get_row_value a ≤ 255)
      × ((get_row_value a ≡ get_row_value b) ↔ (a % 255 ≡ b % 255))
unfolding get_row_value
row_value_cycle a b ha hb = (omega arith, omega arith, (λ h. omega arith, λ h. omega arith))

-- Every operation code sums something: it is one of 1 to 63.
pub get_row_opcode_bounds :
    (lane row : ℕ) → (0 < get_row_opcode lane row) × (get_row_opcode lane row < 64)
unfolding get_row_opcode
get_row_opcode_bounds lane row =
    let h = int32_hash (u32 (lane + (row + 3) * column_lane_count)) in
    (ground (arith, and_ones 6 h), ground (arith, and_ones 6 h))
