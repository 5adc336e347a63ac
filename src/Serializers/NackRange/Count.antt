-- ===== src/Serializers/NackRange/Count.antt =====
-- The extended loss count of a loss range.
use siamese.Prelude.{ℕ, ◌+◌, ◌/◌, ◌%◌, ◌^◌, ◌≤◌, ◌<◌, ◌≡◌, arith, ◌⊎◌}
use siamese.Prelude.Memory.{Memory, Agree, IsBytes}
use siamese.Prelude.Bits.{and_ones, and_80}
use siamese.Serializers.NackRange.{serialize_count, deserialize_count}
use siamese.Serializers.NackRange.Start.{or_80_mod}

-- A count below 2 ^ 22 reads back with the 3 of the flags added.
pub deserialize_count-serialize_count :
    (count : ℕ) (m : Memory) (p : ℕ)
    → count < 2 ^ 22
    → deserialize_count (serialize_count count m p).1 p ≡ ((serialize_count count m p).0, 3 + count)
unfolding serialize_count deserialize_count
deserialize_count-serialize_count count m p h = ground (
  arith,
  and_ones 7 count,
  and_80 count,
  or_80_mod count,
  and_ones 7 (count % 128 + 128),
  and_80 (count % 128 + 128),
  and_ones 7 (count / 128),
  and_80 (count / 128),
  or_80_mod (count / 128),
  and_ones 7 (count / 128 % 128 + 128),
  and_80 (count / 128 % 128 + 128),
)

pub serialize_count_frame :
    (count : ℕ) (m : Memory) (p j : ℕ)
    → (j < p) ⊎ (p + (serialize_count count m p).0 ≤ j)
    → (serialize_count count m p).1 j ≡ m j
unfolding serialize_count
serialize_count_frame count m p j h = ground arith

pub serialize_count_size :
    (count : ℕ) (m : Memory) (p : ℕ)
    → (1 ≤ (serialize_count count m p).0) × ((serialize_count count m p).0 ≤ 3)
unfolding serialize_count
serialize_count_size count m p = (ground arith, ground arith)

-- Reading the count uses no more than the bytes that it reports.
pub deserialize_count_exact :
    (m m' : Memory) (p : ℕ)
    → Agree m m' p (p + (deserialize_count m p).0)
    → deserialize_count m p ≡ deserialize_count m' p
unfolding deserialize_count
deserialize_count_exact m m' p same = ground (arith, same p, same (p + 1), same (p + 2))

pub deserialize_count_size :
    (m : Memory) (p : ℕ) → (1 ≤ (deserialize_count m p).0) × ((deserialize_count m p).0 ≤ 3)
unfolding deserialize_count
deserialize_count_size m p = (ground arith, ground arith)

pub deserialize_count_bound :
    (m : Memory) (p : ℕ) → IsBytes m → (deserialize_count m p).1 < 2 ^ 22 + 3
unfolding deserialize_count
deserialize_count_bound m p bytes =
    ground (arith, bytes (p + 2), and_ones 7 (m p), and_ones 7 (m (p + 1)))
