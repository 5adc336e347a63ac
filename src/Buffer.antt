-- ===== src/Buffer.antt =====
-- The class GrowingAlignedDataBuffer of GrowingAlignedDataBuffer.cpp over the system's heap.
-- `aligned_alloc` is a parameter: from the blocks in use and a size it gives the address of a new
-- block, or nothing; it leaves the bytes as they are.
mod Examples
pub mod Contents
use siamese.Prelude.{ℕ, ◌+◌, ◌-◌, ◌^◌, ◌≤◌, u32, Bool, true, false, Option, none, some}
use siamese.Prelude.{List, [], ◌∷◌, leb, ltb, ◌==◌, if◌then◌else◌}
use siamese.Prelude.Memory.{Memory}
use siamese.Allocator.System.{Block, System, Calloc, remove_block}

pub record GrowingAlignedDataBuffer : Type 0 where
  pub data_ptr : ℕ
  pub size : ℕ
  pub capacity : ℕ

-- A buffer with the heap that it lies in.
pub record State : Type 0 where
  pub system : System
  pub buffer : GrowingAlignedDataBuffer

abbrev pub empty_buffer : GrowingAlignedDataBuffer
empty_buffer = record { data_ptr = 0; size = 0; capacity = 0 }

-- memcpy and memset.
abbrev pub copied : Memory → ℕ → ℕ → ℕ → Memory
copied m target source n j =
    if leb target j then if ltb j (target + n) then m (source + (j - target)) else m j else m j

abbrev pub cleared : Memory → ℕ → ℕ → Memory
cleared m target n j = if leb target j then if ltb j (target + n) then 0 else m j else m j

-- The bytes in use move to the new block, and the old one is freed.
unfoldable pub move_to : ℕ → ℕ → System → GrowingAlignedDataBuffer → State
move_to new_data bytes system buffer = record {
  system = if buffer.data_ptr == 0 then system else record {
    memory = copied system.memory new_data buffer.data_ptr buffer.size;
    blocks = remove_block system.blocks buffer.data_ptr;
  };
  buffer = record { data_ptr = new_data; size = bytes; capacity = bytes };
}

unfoldable pub resize : Calloc → ℕ → State → Bool × State
resize aligned_alloc bytes s =
    if leb bytes s.buffer.capacity
    then (true, record s { buffer = record (s.buffer) { size = bytes } })
    else elim (aligned_alloc (s.system).blocks bytes) [
      | none ↦ (false, s)
      | some new_data ↦ (
        true,
        move_to new_data bytes
            (record (s.system) {
              blocks = record { address = new_data; size = bytes } ∷ (s.system).blocks;
            })
            s.buffer,
      )
    ]

-- A write to the bytes of the heap.
abbrev pub with_memory : Memory → State → State
with_memory m s = record s { system = record (s.system) { memory = m } }

unfoldable pub append : Calloc → ℕ → ℕ → State → Bool × State
append aligned_alloc source bytes s =
    let (resized, t) = resize aligned_alloc (u32 (s.buffer.size + bytes)) s in
    if resized
    then (
      true,
      with_memory
          (copied (t.system).memory (t.buffer.data_ptr + u32 (t.buffer.size + 2 ^ 32 - bytes))
            source bytes)
          t,
    )
    else (false, t)

unfoldable pub grow_zero_padded : Calloc → ℕ → State → Bool × State
grow_zero_padded aligned_alloc bytes s =
    let old_size = s.buffer.size in
    let (resized, t) = resize aligned_alloc bytes s in
    if leb bytes old_size
    then (true, s)
    else if resized
    then (
      true,
      with_memory (cleared (t.system).memory (t.buffer.data_ptr + old_size) (bytes - old_size)) t,
    )
    else (false, t)

unfoldable pub clear : State → State
clear s = record {
  system =
      if s.buffer.data_ptr == 0
      then s.system
      else record (s.system) { blocks = remove_block (s.system).blocks s.buffer.data_ptr };
  buffer = empty_buffer;
}
