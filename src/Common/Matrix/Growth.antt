-- ===== src/Common/Matrix/Growth.antt =====
-- Resize of a matrix as a whole.
use siamese.Prelude.{ℕ, ◌+◌, ◌*◌, ◌^◌, ◌≤◌, ◌<◌, ◌≡◌, refl, sym, ◌∙◌, arith, ◌⊎◌, inl, inr, u32}
use siamese.Prelude.{
  List, ◌∷◌, false, leb, ltb, ◌==◌, ◌&&◌, if◌then◌else◌, if_cases, and-true, Option-cases,
}
use native.Mathlib.Nat.{mul-le-mul_right}
use siamese.Prelude.Memory.{Memory}
use siamese.Allocator.System.{Block, System, Calloc, remove_block}
use siamese.Allocator.System.Blocks.{IsApart, IsInside, IsFresh, IsInside-IsApart}
use siamese.Common.Matrix.{
  allocate, free, GrowingAlignedByteMatrix, State, room_of_rows, room_of_columns, copy_rows,
  move_rows, resize,
}
use siamese.Common.Matrix.Rows.{copy_rows-outside, copy_rows-inside}
use siamese.Common.Matrix.Elements.{
  IsHeld, IsMatrix, get_place, room_bounds, IsGrown, IsResized, in_place, refused-IsEmpty,
}

module _ (s : State) (rows columns : ℕ) (small : (rows + 4) * (columns + 19) < 2 ^ 32)
    (not_fewer : s.matrix.rows ≤ rows + 4) (new_data : ℕ) (positive : 1 ≤ new_data)
    (apart : IsApart new_data
      (u32 (room_of_rows rows * room_of_columns columns))
      (s.system).blocks) where
  abbrev new_rows : ℕ
  new_rows = room_of_rows rows

  abbrev new_columns : ℕ
  new_columns = room_of_columns columns

  abbrev held_block : Block
  held_block = record { address = new_data; size = u32 (new_rows * new_columns) }

  abbrev grown : System
  grown = record (s.system) { blocks = held_block ∷ (s.system).blocks }

  abbrev new_matrix : GrowingAlignedByteMatrix
  new_matrix = record {
    data_ptr = new_data;
    rows = rows;
    columns = columns;
    allocated_rows = new_rows;
    allocated_columns = new_columns;
  }

  room : u32 (new_rows * new_columns) ≡ new_rows * new_columns
  room = let bounds = room_bounds rows columns small in omega (arith, bounds.3)

  new-IsHeld :
      (m : Memory) (rest : List Block)
      → IsHeld (record {
        system = record { memory = m; blocks = held_block ∷ rest };
        matrix = new_matrix;
      })
  new-IsHeld m rest =
      let bounds = room_bounds rows columns small in
      record {
        fits_rows = omega (arith, bounds.0);
        fits_columns = omega (arith, bounds.1);
        some_room = bounds.4;
        small = bounds.3;
        not_null = positive;
        inside = inl (omega arith, omega (arith, room));
      }

  unmet :
      (v n : ℕ)
      → IsInside v n (s.system).blocks
      → (v + n ≤ new_data) ⊎ (new_data + new_rows * new_columns ≤ v)
  unmet v n i =
      elim (IsInside-IsApart v n new_data (u32 (new_rows * new_columns)) (s.system).blocks i
        apart) [ inl h ↦ inl h | inr h ↦ inr (omega (arith, room)) ]

  abbrev copy_count : ℕ
  copy_count = if ltb columns s.matrix.columns then columns else s.matrix.columns

  abbrev copy : Memory
  copy =
      copy_rows s.matrix.rows (s.system).memory new_data s.matrix.data_ptr new_columns
        s.matrix.allocated_columns copy_count

  -- The rows written, the old ones that the new buffer has room for, lie in it.
  rows_written : s.matrix.rows * new_columns ≤ new_rows * new_columns
  rows_written =
      let bounds = room_bounds rows columns small in
      mul-le-mul_right new_columns
        (let e : s.matrix.rows ≤ new_rows = omega (arith, bounds.0, not_fewer) in e)

  count_fits : copy_count ≤ new_columns
  count_fits = let bounds = room_bounds rows columns small in ground (arith, bounds.1)

  copy_others : (j : ℕ) → IsInside j 1 (s.system).blocks → copy j ≡ (s.system).memory j
  copy_others j i =
      copy_rows-outside s.matrix.rows (s.system).memory new_data s.matrix.data_ptr new_columns
        s.matrix.allocated_columns copy_count j count_fits
        (elim (unmet j 1 i) [
          | inl h ↦ inl (omega arith)
          | inr h ↦ inr (omega (arith, rows_written))
        ])

  module _ (held : IsHeld s) where
    rows_read :
        s.matrix.rows * s.matrix.allocated_columns
        ≤ s.matrix.allocated_rows * s.matrix.allocated_columns
    rows_read = mul-le-mul_right s.matrix.allocated_columns held.fits_rows

    rows_apart :
        (s.matrix.data_ptr + s.matrix.rows * s.matrix.allocated_columns ≤ new_data)
        ⊎ (new_data + s.matrix.rows * new_columns ≤ s.matrix.data_ptr)
    rows_apart =
        elim (unmet s.matrix.data_ptr (s.matrix.allocated_rows * s.matrix.allocated_columns)
          held.inside) [
            | inl h ↦ inl (omega (arith, rows_read))
            | inr h ↦ inr (omega (arith, rows_written))
          ]

    copy_kept :
        (i j : ℕ)
        → i < s.matrix.rows
        → j < s.matrix.columns
        → j < columns
        → copy (new_data + (i * new_columns + j))
          ≡ (s.system).memory (s.matrix.data_ptr + (i * s.matrix.allocated_columns + j))
    copy_kept i j h k l =
        copy_rows-inside s.matrix.rows (s.system).memory new_data s.matrix.data_ptr new_columns
          s.matrix.allocated_columns copy_count i j count_fits (ground (arith, held.fits_columns)) h
          (ground arith) rows_apart

    abbrev moved_state : State
    moved_state = record {
      system = record {
        memory = copy;
        blocks = held_block ∷ remove_block (s.system).blocks s.matrix.data_ptr;
      };
      matrix = new_matrix;
    }

    moved-IsHeld : IsHeld moved_state
    moved-IsHeld = new-IsHeld copy (remove_block (s.system).blocks s.matrix.data_ptr)

    moved-IsGrown : IsGrown s moved_state rows columns
    moved-IsGrown = record {
      held = moved-IsHeld;
      sized_rows = refl;
      sized_columns = refl;
      kept = λ old i j a b c d.
          get_place moved_state moved-IsHeld i j b d
          ∙ copy_kept i j a c d
          ∙ sym (get_place s held i j a c);
      others = copy_others;
    }

    other_block : (new_data == s.matrix.data_ptr) ≡ false
    other_block =
        elim (unmet s.matrix.data_ptr (s.matrix.allocated_rows * s.matrix.allocated_columns)
          held.inside) [
            | inl h ↦ ground (arith, held.some_room)
            | inr h ↦ let bounds = room_bounds rows columns small in ground (arith, bounds.4)
          ]

  abbrev resized : State
  resized = record {
    system = move_rows grown new_data columns new_columns s.matrix;
    matrix = new_matrix;
  }

  move_rows-IsGrown : IsMatrix s → IsGrown s resized rows columns
  unfolding move_rows free remove_block
  move_rows-IsGrown (inl (null, none_allocated)) =
      let P = λ (y : System). IsGrown s (record { system = y; matrix = new_matrix }) rows columns in
      if_cases P (s.matrix.data_ptr == 0)
        (λ t. record {
          held = new-IsHeld (s.system).memory (s.system).blocks;
          sized_rows = refl;
          sized_columns = refl;
          kept = λ old i j a b c d. absurd (omega (arith, old.not_null, null));
          others = λ j i. refl;
        })
        (λ t. absurd (ground arith))
  move_rows-IsGrown (inr held) =
      let P = λ (y : System). IsGrown s (record { system = y; matrix = new_matrix }) rows columns in
      if_cases P (s.matrix.data_ptr == 0) (λ t. absurd (ground (arith, held.not_null)))
        (λ t.
          if_cases P (s.matrix.data_ptr == 0) (λ u. absurd cc)
            (λ u.
              if_cases (λ (bs : List Block). P (record { memory = copy; blocks = bs }))
                (new_data == s.matrix.data_ptr) (λ v. absurd (cc (v, other_block held)))
                (λ v. moved-IsGrown held)))

-- If malloc returns fresh blocks, Resize of a matrix that is empty, or whose buffer is a block in
-- use with room for its elements, to one row or more, where the old rows are at most 4 more than the
-- new ones and (rows + 4) * (columns + 19) is below 2 ^ 32, either fails, leaves the matrix without
-- a buffer and writes nothing, or leaves a matrix of the size asked for whose buffer is a block in
-- use with room for its elements, with the elements that both sizes have; no other byte in use is
-- written.
pub resize-IsResized :
    (malloc : Calloc)
    → IsFresh malloc
    → (rows columns : ℕ) (s : State) → IsMatrix s
    → 1 ≤ rows
    → s.matrix.rows ≤ rows + 4
    → (rows + 4) * (columns + 19) < 2 ^ 32
    → IsResized s rows columns (resize malloc rows columns s)
unfolding resize allocate
resize-IsResized malloc fresh rows columns s ok some_rows not_fewer small =
    let here = leb rows s.matrix.allocated_rows && leb columns s.matrix.allocated_columns in
    let bytes = u32 (room_of_rows rows * room_of_columns columns) in
    if_cases (IsResized s rows columns) here
      (λ t.
        let fits =
          and-true (leb rows s.matrix.allocated_rows) (leb columns s.matrix.allocated_columns) t in
        inr (
          refl,
          in_place s rows columns ok some_rows (ground (arith, fits.0)) (ground (arith, fits.1)),
        ))
      (λ t. elim (Option-cases (malloc (s.system).blocks bytes)) [
        | inl e ↦
            let freed = refused-IsEmpty s ok in rw (e, allocate) (inl (refl, freed.0, freed.1))
        | inr (new_data, e) ↦
            let (positive, apart) = fresh (s.system).blocks bytes new_data e in
            rw (e, allocate)
              (if_cases (IsResized s rows columns) (new_data == 0) (λ u. absurd (ground arith))
                (λ u. inr (
                  refl,
                  move_rows-IsGrown s rows columns small not_fewer new_data positive apart ok,
                )))
      ])
