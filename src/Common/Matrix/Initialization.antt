-- ===== src/Common/Matrix/Initialization.antt =====
-- Initialize of a matrix, and what a failed one leaves.
use siamese.Prelude.{ℕ, ◌+◌, ◌*◌, ◌^◌, ◌≤◌, ◌<◌, ◌≡◌, refl, ◌∙◌, arith, ◌⊎◌, inl, inr, u32}
use siamese.Prelude.{List, Bool, true, false, leb, ◌&&◌, none, some, if_cases, Option-cases}
use siamese.Allocator.System.{Block, Calloc, remove_block}
use siamese.Allocator.System.Blocks.{IsApart}
use siamese.Common.Matrix.{
  Realloc, reallocate, State, room_of_rows, room_of_columns, initialize, resize,
}
use siamese.Common.Matrix.Elements.{IsHeld, room_bounds}

and_both : {a b : Bool} → a ≡ true → b ≡ true → a && b ≡ true
and_both {a = true} {b = true} h k = refl
and_both {a = true} {b = false} h k = k
and_both {a = false} {b = b} h k = h

le→leb : (a b : ℕ) → a ≤ b → leb a b ≡ true
le→leb a b h = ground arith

-- What is documented of realloc: a block that it returns is not null and meets no other block in use.
abbrev pub IsReallocating : Realloc → Type 0
IsReallocating realloc =
    (bs : List Block) (ptr n a : ℕ)
    → realloc bs ptr n ≡ some a
    → (0 < a) × IsApart a n (remove_block bs ptr)

-- The outcome of Initialize: a null buffer, with the old one still in use, or a buffer with room for
-- the size asked for.
abbrev pub IsInitialized : State → ℕ → ℕ → Bool × State → Type 0
IsInitialized s rows columns (ok, t) =
    ((ok ≡ false) × (t.matrix.data_ptr ≡ 0) × (t.system ≡ s.system))
    ⊎ ((ok ≡ true) × IsHeld t × (t.matrix.rows ≡ rows) × (t.matrix.columns ≡ columns))

-- If realloc behaves as documented, Initialize to a size whose buffer has fewer than 2 ^ 32 bytes
-- either fails with a null buffer and leaves the old one in use, or leaves a matrix of that size
-- whose buffer is a block in use with room for its elements.
pub initialize-IsInitialized :
    (realloc : Realloc)
    → IsReallocating realloc
    → (rows columns : ℕ) (s : State) → (rows + 4) * (columns + 19) < 2 ^ 32
    → IsInitialized s rows columns (initialize realloc rows columns s)
unfolding initialize reallocate room_of_columns
initialize-IsInitialized realloc documented rows columns s small =
    let bytes = u32 (room_of_rows rows * room_of_columns columns) in
    let bounds = room_bounds rows columns small in
    elim (Option-cases (realloc (s.system).blocks s.matrix.data_ptr bytes)) [
      | inl e ↦ rw (e, reallocate) (inl (refl, refl, refl))
      | inr (new_data, e) ↦
          let (positive, apart) = documented (s.system).blocks s.matrix.data_ptr bytes new_data e in
          rw (e, reallocate)
            (inr (
              ground arith,
              record {
                fits_rows = omega (arith, bounds.0);
                fits_columns = omega (arith, bounds.1);
                some_room = bounds.4;
                small = bounds.3;
                not_null = positive;
                inside = inl (omega arith, omega (arith, bounds.3));
              },
              refl,
              refl,
            ))
    ]

resize_in_place :
    (malloc : Calloc) (rows columns : ℕ) (s : State)
    → rows ≤ s.matrix.allocated_rows
    → columns ≤ s.matrix.allocated_columns
    → ((resize malloc rows columns s).0 ≡ true)
      × ((resize malloc rows columns s).1.matrix.data_ptr ≡ s.matrix.data_ptr)
unfolding resize
resize_in_place malloc rows columns s h k =
    if_cases (λ (r : Bool × State). (r.0 ≡ true) × (r.1.matrix.data_ptr ≡ s.matrix.data_ptr))
      (leb rows s.matrix.allocated_rows && leb columns s.matrix.allocated_columns)
      (λ t. (refl, refl))
      (λ t. absurd (
        cc (
          t,
          and_both (le→leb rows s.matrix.allocated_rows h)
              (le→leb columns s.matrix.allocated_columns k),
        )))

-- Where realloc gives no block for the size of an Initialize, with (rows + 4) * (columns + 19) below
-- 2 ^ 32, Initialize reports failure, and a Resize that follows, to no more rows and columns,
-- reports success with a null buffer.
pub resize_after_failure :
    (malloc : Calloc) (realloc : Realloc) (rows columns rows' columns' : ℕ) (s : State)
    → (rows + 4) * (columns + 19) < 2 ^ 32
    → rows' ≤ rows
    → columns' ≤ columns
    → realloc
        (s.system).blocks
        s.matrix.data_ptr
        (u32 (room_of_rows rows * room_of_columns columns))
      ≡ none
    → ((initialize realloc rows columns s).0 ≡ false)
      × ((resize malloc rows' columns' (initialize realloc rows columns s).1).0 ≡ true)
      × ((resize malloc rows' columns' (initialize realloc rows columns s).1).1.matrix.data_ptr ≡ 0)
unfolding initialize reallocate room_of_columns
resize_after_failure malloc realloc rows columns rows' columns' s small few narrow e =
    let bounds = room_bounds rows columns small in
    let fails : ((initialize realloc rows columns s).0 ≡ false)
        × ((initialize realloc rows columns s).1.matrix.data_ptr ≡ 0) =
      rw (e, reallocate) (refl, refl) in
    let in_place =
      resize_in_place malloc rows' columns' (initialize realloc rows columns s).1
        (omega (arith, bounds.0)) (omega (arith, bounds.1)) in
    (fails.0, in_place.0, in_place.1 ∙ fails.1)
