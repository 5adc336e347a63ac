-- ===== src/Common/DataBuffer.antt =====
-- The struct GrowingAlignedDataBuffer of SiameseCommon.h, on pktalloc::Allocator. calloc is a
-- parameter like malloc and realloc. `none` is undefined behaviour: Reallocate copies to a null
-- pointer, or from behind the end of a block.
mod Examples
pub mod Growth
use siamese.Prelude.{ℕ, ◌+◌, ◌-◌, ◌≤◌, Bool, true, false, ◌||◌, not, Option, none, some}
use siamese.Prelude.{List, [], ◌∷◌, ltb, ◌==◌, if◌then◌else◌}
use siamese.Allocator.System.{Block, System, Calloc, zeroed}
use siamese.Buffer.{copied, cleared}
use siamese.Common.Matrix.{free, Realloc, block_size, reallocate}

-- Reallocate with ZeroInitialized. memcpy reads newSize bytes of the old block, and it must have them.
unfoldable pub reallocate_zeroed : Calloc → System → ℕ → ℕ → Option (ℕ × System)
reallocate_zeroed calloc system ptr new_size = elim (calloc system.blocks new_size) [
  | none ↦ if ptr == 0 then some (0, system) else none
  | some new_ptr ↦
      let new_block : Block = record { address = new_ptr; size = new_size } in
      let cleared_memory = zeroed system.memory new_ptr new_size in
      if ptr == 0
      then some (new_ptr, record { memory = cleared_memory; blocks = new_block ∷ system.blocks })
      else if ltb (block_size system.blocks ptr) new_size
      then none
      else some (
        new_ptr,
        record {
          memory = copied cleared_memory new_ptr ptr new_size;
          blocks = new_block ∷ (free system ptr).blocks;
        },
      )
]

pub record GrowingAlignedDataBuffer : Type 0 where
  pub data_ptr : ℕ
  pub bytes : ℕ

pub record State : Type 0 where
  pub system : System
  pub buffer : GrowingAlignedDataBuffer

-- What GrowZeroPadded does with what Reallocate returns.
unfoldable pub pad : ℕ → ℕ → ℕ × System → Bool × State
pad old_bytes bytes (data_block, system) =
    if data_block == 0
    then (false, record { system = system; buffer = record { data_ptr = data_block; bytes = 0 } })
    else (
      true,
      record {
        system = record system {
          memory = cleared system.memory (data_block + old_bytes) (bytes - old_bytes);
        };
        buffer = record { data_ptr = data_block; bytes = bytes };
      },
    )

unfoldable pub grow_zero_padded : Calloc → ℕ → State → Option (Bool × State)
grow_zero_padded calloc bytes s =
    if s.buffer.data_ptr == 0 || ltb s.buffer.bytes bytes
    then elim (reallocate_zeroed calloc s.system s.buffer.data_ptr bytes) [
      | none ↦ none
      | some reallocated ↦ some (pad s.buffer.bytes bytes reallocated)
    ]
    else some (true, s)

unfoldable pub initialize : Realloc → ℕ → State → Bool × State
initialize realloc bytes s =
    let (data_block, system) = reallocate realloc s.system s.buffer.data_ptr bytes in
    if data_block == 0
    then (false, record { system = system; buffer = record { data_ptr = data_block; bytes = 0 } })
    else (
      true,
      record { system = system; buffer = record { data_ptr = data_block; bytes = bytes } },
    )

unfoldable pub free_buffer : State → State
free_buffer s = if s.buffer.data_ptr == 0 then s else record {
  system = free s.system s.buffer.data_ptr;
  buffer = record { data_ptr = 0; bytes = 0 };
}
