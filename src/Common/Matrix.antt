-- ===== src/Common/Matrix.antt =====
-- pktalloc::Allocator of pktalloc.h, and GrowingAlignedByteMatrix of SiameseCommon.h and
-- SiameseCommon.cpp on top of it. malloc and realloc are parameters: from the blocks in use, the
-- block that is given back, and a size, the address of a new block, or nothing.
mod Examples
pub mod Rows
pub mod Elements
pub mod Growth
pub mod Initialization
use siamese.Prelude.{
  ℕ, zero, suc, ◌+◌, ◌-◌, ◌*◌, ◌%◌, ◌^◌, ◌≤◌, u32, Bool, true, false, Option, none, some,
}
use siamese.Prelude.{List, [], ◌∷◌, leb, ltb, ◌==◌, ◌&&◌, not, if◌then◌else◌}
use siamese.Prelude.Memory.{Memory}
use siamese.Allocator.System.{Block, System, Calloc, remove_block}
use siamese.Buffer.{copied}

-- PKTALLOC_ALIGN_BYTES, as with NEON.
abbrev pub align_bytes : ℕ
align_bytes = 16

-- `& ~(alignment - 1)` clears the low four bits.
unfoldable pub next_aligned_offset : ℕ → ℕ
next_aligned_offset size = let raised = size + align_bytes - 1 in raised - raised % align_bytes

unfoldable pub allocate : Calloc → System → ℕ → ℕ × System
allocate malloc system size = elim (malloc system.blocks size) [
  | none ↦ (0, system)
  | some ptr ↦
      (ptr, record system { blocks = record { address = ptr; size = size } ∷ system.blocks })
]

unfoldable pub free : System → ℕ → System
free system ptr =
    if ptr == 0 then system else record system { blocks = remove_block system.blocks ptr }

abbrev pub Realloc : Type 0
Realloc = List Block → ℕ → ℕ → Option ℕ

-- The size of the block at an address.
abbrev pub block_size : List Block → ℕ → ℕ
block_size [] a = 0
block_size (b ∷ bs) a = if b.address == a then b.size else block_size bs a

abbrev pub smaller : ℕ → ℕ → ℕ
smaller a b = if leb a b then a else b

-- Reallocate without ZeroInitialized: realloc moves the bytes that both blocks have room for.
unfoldable pub reallocate : Realloc → System → ℕ → ℕ → ℕ × System
reallocate realloc system ptr new_size = elim (realloc system.blocks ptr new_size) [
  | none ↦ (0, system)
  | some new_ptr ↦ (
    new_ptr,
    record {
      memory = copied system.memory new_ptr ptr (smaller (block_size system.blocks ptr) new_size);
      blocks = record { address = new_ptr; size = new_size } ∷ (free system ptr).blocks;
    },
  )
]

pub record GrowingAlignedByteMatrix : Type 0 where
  pub data_ptr : ℕ
  pub rows : ℕ
  pub columns : ℕ
  pub allocated_rows : ℕ
  pub allocated_columns : ℕ

-- A matrix with the heap that it lies in.
pub record State : Type 0 where
  pub system : System
  pub matrix : GrowingAlignedByteMatrix

abbrev pub empty_matrix : GrowingAlignedByteMatrix
empty_matrix = record {
  data_ptr = 0;
  rows = 0;
  columns = 0;
  allocated_rows = 0;
  allocated_columns = 0;
}

abbrev pub extra_rows : ℕ
extra_rows = 4

abbrev pub min_extra_columns : ℕ
min_extra_columns = 4

-- The rows and columns that a size takes, and their bytes.
abbrev pub room_of_rows : ℕ → ℕ
room_of_rows rows = u32 (rows + extra_rows)

unfoldable pub room_of_columns : ℕ → ℕ
room_of_columns columns = u32 (next_aligned_offset (u32 (columns + min_extra_columns)))

unfoldable pub initialize : Realloc → ℕ → ℕ → State → Bool × State
initialize realloc rows columns s =
    let allocated_rows = room_of_rows rows in
    let allocated_columns = room_of_columns columns in
    let (new_data, system) =
      reallocate realloc s.system s.matrix.data_ptr (u32 (allocated_rows * allocated_columns)) in
    (
      not (new_data == 0),
      record {
        system = system;
        matrix = record {
          data_ptr = new_data;
          rows = rows;
          columns = columns;
          allocated_rows = allocated_rows;
          allocated_columns = allocated_columns;
        };
      },
    )

-- Free keeps Rows and Columns.
unfoldable pub free_matrix : State → State
free_matrix s = if s.matrix.data_ptr == 0 then s else record {
  system = free s.system s.matrix.data_ptr;
  matrix = record (s.matrix) { data_ptr = 0; allocated_rows = 0; allocated_columns = 0 };
}

-- The loop over the rows: n rows are left, from srcRow to destRow.
unfoldable pub copy_rows : ℕ → Memory → ℕ → ℕ → ℕ → ℕ → ℕ → Memory
copy_rows zero m dest_row src_row dest_stride src_stride copy_count = m
copy_rows (suc n) m dest_row src_row dest_stride src_stride copy_count =
    copy_rows n (copied m dest_row src_row copy_count) (dest_row + dest_stride)
      (src_row + src_stride) dest_stride src_stride copy_count

-- The elements move to the new buffer, and the old one is freed.
unfoldable pub move_rows : System → ℕ → ℕ → ℕ → GrowingAlignedByteMatrix → System
move_rows system new_buffer columns new_columns old =
    if old.data_ptr == 0
    then system
    else free
        (record system {
          memory =
              copy_rows old.rows system.memory new_buffer old.data_ptr new_columns
                old.allocated_columns (if ltb columns old.columns then columns else old.columns);
        })
        old.data_ptr

unfoldable pub resize : Calloc → ℕ → ℕ → State → Bool × State
resize malloc rows columns s =
    let new_rows = room_of_rows rows in
    let new_columns = room_of_columns columns in
    if leb rows s.matrix.allocated_rows && leb columns s.matrix.allocated_columns
    then (true, record s { matrix = record (s.matrix) { rows = rows; columns = columns } })
    else let (new_buffer, system) = allocate malloc s.system (u32 (new_rows * new_columns)) in
      if new_buffer == 0 then (false, free_matrix s) else (
        true,
        record {
          system = move_rows system new_buffer columns new_columns s.matrix;
          matrix = record {
            data_ptr = new_buffer;
            rows = rows;
            columns = columns;
            allocated_rows = new_rows;
            allocated_columns = new_columns;
          };
        },
      )

unfoldable pub clear : State → State
clear s = record s { matrix = record (s.matrix) { rows = 0; columns = 0 } }

unfoldable pub get : State → ℕ → ℕ → ℕ
get s row column =
    (s.system).memory (s.matrix.data_ptr + u32 (row * s.matrix.allocated_columns + column))
