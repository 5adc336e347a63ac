-- ===== src/Buffer/Examples.antt =====
-- A buffer on a heap with one block of the client: tests, and the theorems at inputs that meet their
-- conditions.
use siamese.Prelude.{◌-◌, ◌≡◌, refl, arith, inl, inr, [], ◌∷◌}
use siamese.Allocator.System.Bump.{top, bump, bump-IsFresh}
use siamese.Buffer.{State, empty_buffer, append, grow_zero_padded, resize, move_to}
use siamese.Buffer.Contents.{
  bytes_at, zeros, contents, IsBuffer, IsOutside, IsExtended, append-IsExtended,
  grow_zero_padded-IsExtended,
}

-- The client's bytes count up from their address.
abbrev start : State
start = record {
  system = record { memory = λ j. j; blocks = record { address = 100; size = 8 } ∷ [] };
  buffer = empty_buffer;
}

start-IsBuffer : IsBuffer start
start-IsBuffer = record {
  bounded = omega arith;
  wide = omega arith;
  none_held = λ z. refl;
  held = λ h. absurd (omega arith);
}

append_test : contents (append bump 100 3 start).1 ≡ 100 ∷ 101 ∷ 102 ∷ []
unfolding append resize move_to top
append_test = refl

grow_test :
    contents (grow_zero_padded bump 5 (append bump 100 3 start).1).1 ≡ 100 ∷ 101 ∷ 102 ∷ 0 ∷ 0 ∷ []
unfolding append resize move_to top grow_zero_padded
grow_test = refl

append-IsExtended_example :
    IsExtended start (bytes_at (λ j. j) 100 3) (append bump 100 3 start)
    × IsOutside 100 3 (append bump 100 3 start).1
append-IsExtended_example =
    append-IsExtended bump bump-IsFresh start start-IsBuffer 100 3 (omega arith)
      (inl (omega arith, omega arith)) (inr (omega arith))

grow_zero_padded-IsExtended_example :
    IsExtended start (zeros (40 - 0)) (grow_zero_padded bump 40 start)
grow_zero_padded-IsExtended_example =
    grow_zero_padded-IsExtended bump bump-IsFresh start start-IsBuffer 40 (omega arith)
