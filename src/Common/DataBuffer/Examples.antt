-- ===== src/Common/DataBuffer/Examples.antt =====
-- A buffer of 3 bytes that grows: tests, and the theorem at an input that meets its condition.
use siamese.Prelude.{◌≡◌, refl, inl, [], ◌∷◌, some, none, true}
use siamese.Allocator.System.{remove_block}
use siamese.Allocator.System.Bump.{top, bump, bump-IsFresh}
use siamese.Common.Matrix.{free, Realloc, reallocate}
use siamese.Common.DataBuffer.{
  State, reallocate_zeroed, pad, grow_zero_padded, initialize, free_buffer,
}
use siamese.Common.DataBuffer.Growth.{contents, IsPadded, grow_zero_padded-IsPadded}

abbrev three_bytes : State
three_bytes = record {
  system = record { memory = λ j. j; blocks = record { address = 100; size = 3 } ∷ [] };
  buffer = record { data_ptr = 100; bytes = 3 };
}

grow_test : grow_zero_padded bump 3 three_bytes ≡ some (true, three_bytes)
unfolding grow_zero_padded
grow_test = refl

-- More bytes are read than the old block has, also where calloc gives a new one.
overread_test : grow_zero_padded bump 5 three_bytes ≡ none
unfolding grow_zero_padded reallocate_zeroed pad
overread_test = refl

abbrev null_buffer : State
null_buffer = record three_bytes { buffer = record { data_ptr = 0; bytes = 0 } }

contents_test :
    contents (elim (grow_zero_padded bump 2 null_buffer) [ none ↦ three_bytes | some r ↦ r.1 ])
    ≡ 0 ∷ 0 ∷ []
unfolding grow_zero_padded reallocate_zeroed pad top
contents_test = refl

grow_zero_padded-IsPadded_example : IsPadded null_buffer 5 (grow_zero_padded bump 5 null_buffer)
grow_zero_padded-IsPadded_example =
    grow_zero_padded-IsPadded bump bump-IsFresh 5 null_buffer (inl (refl, refl))

-- The one address that this realloc gives.
abbrev at_200 : Realloc
at_200 bs ptr n = some 200

initialize_test : (initialize at_200 8 three_bytes).1.buffer ≡ record { data_ptr = 200; bytes = 8 }
unfolding initialize reallocate
initialize_test = refl

free_test : (free_buffer three_bytes).system.blocks ≡ []
unfolding free_buffer free remove_block
free_test = refl
