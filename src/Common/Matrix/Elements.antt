-- ===== src/Common/Matrix/Elements.antt =====
-- The elements of a matrix through Resize.
use siamese.Prelude.{ℕ, ◌+◌, ◌*◌, ◌^◌, ◌≤◌, ◌<◌, ◌≡◌, refl, ap, arith, ◌⊎◌, inl, inr, u32}
use siamese.Prelude.{Bool, true, false, ◌==◌, if_cases}
use native.Mathlib.Nat.{mul-le-mul_left, mul-le-mul_right}
use siamese.Allocator.System.Blocks.{IsInside}
use siamese.Common.Matrix.{
  next_aligned_offset, free, State, min_extra_columns, room_of_rows, room_of_columns, free_matrix,
  get,
}
use siamese.Common.Matrix.Rows.{place_bound}

-- A matrix without a buffer, and one whose buffer is a block in use with room for its elements.
abbrev pub IsEmpty : State → Type 0
IsEmpty s = (s.matrix.data_ptr ≡ 0) × (s.matrix.allocated_rows ≡ 0)

pub record IsHeld (s : State) : Type 0 where
  pub fits_rows : s.matrix.rows ≤ s.matrix.allocated_rows
  pub fits_columns : s.matrix.columns ≤ s.matrix.allocated_columns
  pub some_room : 1 ≤ s.matrix.allocated_rows * s.matrix.allocated_columns
  pub small : s.matrix.allocated_rows * s.matrix.allocated_columns < 2 ^ 32
  pub not_null : 1 ≤ s.matrix.data_ptr
  pub inside :
      IsInside s.matrix.data_ptr
        (s.matrix.allocated_rows * s.matrix.allocated_columns)
        (s.system).blocks

abbrev pub IsMatrix : State → Type 0
IsMatrix s = IsEmpty s ⊎ IsHeld s

-- An element by its place in the buffer.
pub get_place :
    (s : State)
    → IsHeld s
    → (i j : ℕ) → i < s.matrix.rows
    → j < s.matrix.columns
    → get s i j ≡ (s.system).memory (s.matrix.data_ptr + (i * s.matrix.allocated_columns + j))
unfolding get
get_place s held i j h k =
    let w = s.matrix.allocated_columns in
    let bound =
      place_bound i s.matrix.allocated_rows j w (omega (arith, held.fits_rows))
        (omega (arith, held.fits_columns)) in
    ap (λ (x : ℕ). (s.system).memory (s.matrix.data_ptr + x))
      (let e : u32 (i * w + j) ≡ i * w + j = omega (arith, held.small, bound) in e)

next_aligned_offset_bounds :
    (n : ℕ) → (n ≤ next_aligned_offset n) × (next_aligned_offset n ≤ n + 15)
unfolding next_aligned_offset
next_aligned_offset_bounds n = (omega arith, omega arith)

factor_below : (a b m : ℕ) → 1 ≤ b → a * b < m → a < m
factor_below a b m h k = omega (arith, mul-le-mul_left a h)

pub room_bounds :
    (rows columns : ℕ)
    → (rows + 4) * (columns + 19) < 2 ^ 32
    → (room_of_rows rows ≡ rows + 4)
      × (columns + 4 ≤ room_of_columns columns)
      × (room_of_columns columns ≤ columns + 19)
      × (room_of_rows rows * room_of_columns columns < 2 ^ 32)
      × (1 ≤ room_of_rows rows * room_of_columns columns)
unfolding room_of_columns
room_bounds rows columns small =
    let few : rows + 4 < 2 ^ 32 =
      factor_below (rows + 4) (columns + 19) (2 ^ 32) (omega arith) small in
    let narrow : columns + 19 < 2 ^ 32 =
      omega (arith, mul-le-mul_right (columns + 19) (let e : 1 ≤ rows + 4 = omega arith in e)) in
    let needed : u32 (columns + min_extra_columns) ≡ columns + 4 = omega arith in
    let bounds = next_aligned_offset_bounds (u32 (columns + min_extra_columns)) in
    let width = room_of_columns columns in
    let rows_room : room_of_rows rows ≡ rows + 4 = omega arith in
    let least : columns + 4 ≤ width = omega (arith, needed, bounds.0, bounds.1) in
    let most : width ≤ columns + 19 = omega (arith, needed, bounds.0, bounds.1) in
    (
      rows_room,
      least,
      most,
      omega (arith, ap (λ (x : ℕ). x * width) rows_room, mul-le-mul_left (rows + 4) most),
      omega (arith, ap (λ (x : ℕ). x * width) rows_room, mul-le-mul_left (rows + 4) least),
    )

-- The outcome of a Resize that succeeds: the matrix has the size asked for, its buffer is a block in
-- use with room for it, the elements that both sizes have are kept, and no other byte in use is
-- written.
pub record IsGrown (s t : State) (rows columns : ℕ) : Type 0 where
  pub held : IsHeld t
  pub sized_rows : t.matrix.rows ≡ rows
  pub sized_columns : t.matrix.columns ≡ columns
  pub kept :
      IsHeld s
      → (i j : ℕ) → i < s.matrix.rows
      → i < rows
      → j < s.matrix.columns
      → j < columns
      → get t i j ≡ get s i j
  pub others : (j : ℕ) → IsInside j 1 (s.system).blocks → (t.system).memory j ≡ (s.system).memory j

abbrev pub IsResized : State → ℕ → ℕ → Bool × State → Type 0
IsResized s rows columns (ok, t) =
    ((ok ≡ false) × IsEmpty t × ((t.system).memory ≡ (s.system).memory))
    ⊎ ((ok ≡ true) × IsGrown s t rows columns)

pub in_place :
    (s : State) (rows columns : ℕ)
    → IsMatrix s
    → 1 ≤ rows
    → rows ≤ s.matrix.allocated_rows
    → columns ≤ s.matrix.allocated_columns
    → IsGrown s
        (record s { matrix = record (s.matrix) { rows = rows; columns = columns } })
        rows
        columns
unfolding get
in_place s rows columns (inl (null, none_allocated)) some_rows h k = absurd (omega arith)
in_place s rows columns (inr held) some_rows h k = record {
  held = record {
    fits_rows = h;
    fits_columns = k;
    some_room = held.some_room;
    small = held.small;
    not_null = held.not_null;
    inside = held.inside;
  };
  sized_rows = refl;
  sized_columns = refl;
  kept = λ old i j a b c d. refl;
  others = λ j i. refl;
}

pub refused-IsEmpty :
    (s : State)
    → IsMatrix s
    → IsEmpty (free_matrix s) × (((free_matrix s).system).memory ≡ (s.system).memory)
unfolding free_matrix free
refused-IsEmpty s (inl (null, none_allocated)) =
    if_cases (λ (t : State). IsEmpty t × ((t.system).memory ≡ (s.system).memory))
      (s.matrix.data_ptr == 0) (λ t. ((null, none_allocated), refl)) (λ t. absurd (ground arith))
refused-IsEmpty s (inr held) =
    if_cases (λ (t : State). IsEmpty t × ((t.system).memory ≡ (s.system).memory))
      (s.matrix.data_ptr == 0) (λ t. absurd (ground (arith, held.not_null)))
      (λ t. ((refl, refl), ground arith))
