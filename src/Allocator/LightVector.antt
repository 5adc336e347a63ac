-- ===== src/Allocator/LightVector.antt =====
-- LightVector of PacketAllocator.h. `new_array` is a parameter: from a number of elements it gives a
-- new array, by what its elements hold, or nothing. An array is a function from its places.
mod Examples
pub mod Contents
use siamese.Prelude.{ℕ, ◌+◌, ◌-◌, ◌*◌, ◌/◌, ◌^◌, u32, Bool, true, false, Option, none, some}
use siamese.Prelude.{ltb, if◌then◌else◌}
use siamese.Prelude.Lists.{put}

-- kPreallocated.
abbrev pub preallocated : ℕ
preallocated = 25

pub record LightVector (A : Type 0) : Type 0 where
  pub elements : ℕ → A
  pub size : ℕ
  pub allocated : ℕ

abbrev pub NewArray : Type 0 → Type 0
NewArray A = ℕ → Option (ℕ → A)

abbrev pub new_allocated : ℕ → ℕ
new_allocated elements = u32 (elements * 3) / 2

module _ {A : Type 0} where
  abbrev pub empty_vector : (ℕ → A) → LightVector A
  empty_vector preallocated_data = record {
    elements = preallocated_data;
    size = 0;
    allocated = preallocated;
  }

  unfoldable pub set_size_no_copy : NewArray A → ℕ → LightVector A → Bool × LightVector A
  set_size_no_copy new_array elements v =
      if ltb v.allocated elements
      then elim (new_array (new_allocated elements)) [
        | none ↦ (false, v)
        | some new_data ↦ (
          true,
          record { elements = new_data; size = elements; allocated = new_allocated elements },
        )
      ]
      else (true, record v { size = elements })

  unfoldable pub set_size_copy : NewArray A → ℕ → LightVector A → Bool × LightVector A
  set_size_copy new_array elements v =
      if ltb v.allocated elements
      then elim (new_array (new_allocated elements)) [
        | none ↦ (false, v)
        | some new_data ↦ (
          true,
          record {
            elements = λ i. if ltb i v.size then v.elements i else new_data i;
            size = elements;
            allocated = new_allocated elements;
          },
        )
      ]
      else (true, record v { size = elements })

  unfoldable pub append : NewArray A → A → LightVector A → Bool × LightVector A
  append new_array rhs v =
      let new_size = u32 (v.size + 1) in
      let (grown, w) = set_size_copy new_array new_size v in
      if grown
      then (true, record w { elements = put w.elements (u32 (new_size + 2 ^ 32 - 1)) rhs })
      else (false, w)

  unfoldable pub clear : LightVector A → LightVector A
  clear v = record v { size = 0 }
