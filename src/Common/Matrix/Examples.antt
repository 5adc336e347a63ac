-- ===== src/Common/Matrix/Examples.antt =====
-- A matrix of 2 rows and 3 columns that grows: tests, and the theorems at inputs that meet their
-- conditions.
use siamese.Prelude.{
  ℕ, ◌+◌, ◌*◌, ◌≡◌, refl, arith, inl, inr, List, [], ◌∷◌, none, some, true, false, ◌==◌, if_cases,
}
use siamese.Allocator.System.{Block, remove_block}
use siamese.Allocator.System.Blocks.{IsApart}
use siamese.Allocator.System.Bump.{top, bump, bump-IsFresh}
use siamese.Common.Matrix.{
  next_aligned_offset, allocate, free, Realloc, State, room_of_columns, initialize, copy_rows,
  move_rows, resize, get,
}
use siamese.Common.Matrix.Elements.{IsHeld, IsResized}
use siamese.Common.Matrix.Growth.{resize-IsResized}
use siamese.Common.Matrix.Initialization.{IsReallocating, resize_after_failure}

-- 6 rows of 16 bytes lie at 100, where the bytes count up.
abbrev small_matrix : State
small_matrix = record {
  system = record { memory = λ j. j; blocks = record { address = 100; size = 96 } ∷ [] };
  matrix = record {
    data_ptr = 100;
    rows = 2;
    columns = 3;
    allocated_rows = 6;
    allocated_columns = 16;
  };
}

small_matrix-IsHeld : IsHeld small_matrix
small_matrix-IsHeld = record {
  fits_rows = omega arith;
  fits_columns = omega arith;
  some_room = omega arith;
  small = omega arith;
  not_null = omega arith;
  inside = inl (omega arith, omega arith);
}

-- Row 1, column 2 keeps its element when the columns grow to 20, in rows of 32 bytes.
resize_test : get (resize bump 3 20 small_matrix).1 1 2 ≡ 118
unfolding get resize allocate move_rows copy_rows free room_of_columns next_aligned_offset top
resize_test = refl

stride_test : (resize bump 3 20 small_matrix).1.matrix.allocated_columns ≡ 32
unfolding resize allocate room_of_columns next_aligned_offset top
stride_test = refl

-- One row of 20 columns takes 5 rows, but 9 old ones are copied: byte 2 of the ninth lies behind the
-- 160 bytes of the new block.
abbrev tall_matrix : State
tall_matrix = record {
  system = record { memory = λ j. j; blocks = record { address = 100; size = 208 } ∷ [] };
  matrix = record {
    data_ptr = 100;
    rows = 9;
    columns = 3;
    allocated_rows = 13;
    allocated_columns = 16;
  };
}

overflow_test :
    ((resize bump 1 20 tall_matrix).1.system.blocks ≡ record { address = 308; size = 160 } ∷ [])
    × ((resize bump 1 20 tall_matrix).1.system.memory (308 + 8 * 32 + 2) ≡ 100 + 8 * 16 + 2)
unfolding resize allocate move_rows copy_rows free remove_block room_of_columns next_aligned_offset
    top
overflow_test = (refl, refl)

abbrev bump_realloc : Realloc
bump_realloc bs ptr n = some (top bs)

-- A heap without room.
abbrev full_realloc : Realloc
full_realloc bs ptr n = none

remove_block-IsApart :
    (a n ptr : ℕ) (bs : List Block) → IsApart a n bs → IsApart a n (remove_block bs ptr)
unfolding remove_block
remove_block-IsApart a n ptr [] h = h
remove_block-IsApart a n ptr (b ∷ bs) (h, k) =
    if_cases (IsApart a n) (b.address == ptr) (λ t. k) (λ t. (h, remove_block-IsApart a n ptr bs k))

bump_realloc-IsReallocating : IsReallocating bump_realloc
bump_realloc-IsReallocating bs ptr n a e =
    let (positive, apart) = bump-IsFresh bs n a e in
    (positive, remove_block-IsApart a n ptr bs apart)

resize-IsResized_example : IsResized small_matrix 3 20 (resize bump 3 20 small_matrix)
resize-IsResized_example =
    resize-IsResized bump bump-IsFresh 3 20 small_matrix (inr small_matrix-IsHeld) (omega arith)
      (omega arith) (omega arith)

resize_after_failure_example :
    ((initialize full_realloc 3 20 small_matrix).0 ≡ false)
    × ((resize bump 2 20 (initialize full_realloc 3 20 small_matrix).1).0 ≡ true)
    × ((resize bump 2 20 (initialize full_realloc 3 20 small_matrix).1).1.matrix.data_ptr ≡ 0)
resize_after_failure_example =
    resize_after_failure bump full_realloc 3 20 2 20 small_matrix (omega arith) (omega arith)
      (omega arith) refl
