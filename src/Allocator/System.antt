-- ===== src/Allocator/System.antt =====
-- SIMDSafeAllocate and SIMDSafeFree of PacketAllocator.cpp over the system's heap. `calloc` is a
-- parameter: from the blocks in use and a size it gives the address of a new block, or nothing.
pub mod Blocks
pub mod Bump
use siamese.Prelude.{ℕ, ◌+◌, ◌-◌, ◌*◌, ◌/◌, ◌%◌, ◌≤◌, ◌<◌, ◌≡◌, Option, none, some}
use siamese.Prelude.{List, [], ◌∷◌, ltb, leb, ◌==◌, if◌then◌else◌}
use siamese.Prelude.Memory.{Memory, store}

-- kAlignmentBytes, as without AVX2.
abbrev pub alignment_bytes : ℕ
alignment_bytes = 16

-- A block in use: where it starts, and its bytes.
pub record Block : Type 0 where
  pub address : ℕ
  pub size : ℕ

pub record System : Type 0 where
  pub memory : Memory
  pub blocks : List Block

abbrev pub Calloc : Type 0
Calloc = List Block → ℕ → Option ℕ

-- `calloc` clears its block.
abbrev pub zeroed : Memory → ℕ → ℕ → Memory
zeroed m a n j = if leb a j then if ltb j (a + n) then 0 else m j else m j

unfoldable pub remove_block : List Block → ℕ → List Block
remove_block [] a = []
remove_block (b ∷ bs) a = if b.address == a then bs else b ∷ remove_block bs a

-- The null pointer is 0.
unfoldable pub simd_safe_allocate : Calloc → System → ℕ → ℕ × System
simd_safe_allocate calloc system size = elim (calloc system.blocks (alignment_bytes + size)) [
  | none ↦ (0, system)
  | some start ↦
      let offset = start % alignment_bytes in
      let aligned = start + (alignment_bytes - offset) in
      (
        aligned,
        record {
          memory = store (zeroed system.memory start (alignment_bytes + size)) (aligned - 1) offset;
          blocks = record { address = start; size = alignment_bytes + size } ∷ system.blocks;
        },
      )
]

unfoldable pub simd_safe_free : System → ℕ → System
simd_safe_free system ptr =
    if ptr == 0
    then system
    else let offset = system.memory (ptr - 1) in
      if leb alignment_bytes offset
      then system
      else record system { blocks = remove_block system.blocks (ptr - (alignment_bytes - offset)) }
