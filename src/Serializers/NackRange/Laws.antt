-- ===== src/Serializers/NackRange/Laws.antt =====
-- Loss ranges written and read back, and the loss range reader on arbitrary bytes.
use siamese.Prelude.{ℕ, ◌+◌, ◌-◌, ◌^◌, ◌≤◌, ◌<◌, ◌≡◌, sym, ap, arith, ◌⊎◌, inl}
use native.Mathlib.Decide.{dec_lt}
use siamese.Prelude.{some, none, Option}
use siamese.Prelude.Memory.{Memory, Agree, IsBytes}
use siamese.Prelude.Bits.{and_ones}
use siamese.Serializers.NackRange.{
  serialize_start, serialize_count, serialize_header, deserialize_start, deserialize_header,
}
use siamese.Serializers.NackRange.Start.{
  reads_start, serialize_start_frame, serialize_start_size, deserialize_start_exact,
  deserialize_start_size, deserialize_start_bound,
}
use siamese.Serializers.NackRange.Count.{
  deserialize_count-serialize_count, serialize_count_frame, serialize_count_size,
  deserialize_count_exact, deserialize_count_size, deserialize_count_bound,
}

-- A loss range whose start is below 2 ^ 27 and whose count, less one, is below 2 ^ 22 + 3 reads back
-- from any space of 7 bytes or more, with the bytes written as the bytes read.
pub range_round_trip :
    (start count : ℕ) (m : Memory) (p space : ℕ)
    → start < 2 ^ 27
    → count < 2 ^ 22 + 3
    → 0 < p
    → 7 ≤ space
    → deserialize_header (serialize_header start count m p).1 p space
      ≡ some ((serialize_header start count m p).0, start, count)
unfolding serialize_header deserialize_header
range_round_trip start count m p space hs hc hp fits =
    let front = serialize_start start count m p in
    let back = serialize_count (count - 3) front.1 (p + front.0) in
    let read = reads_start start count m p hs in
    let size = serialize_start_size start count m p in
    let kept = deserialize_start_exact front.1 back.1 p λ j lo hi. sym (
      serialize_count_frame (count - 3) front.1 (p + front.0) j
        (inl (omega (arith, ap (λ (r : ℕ × ℕ). r.0) read.0)))) in
    ground (
      arith,
      read.0,
      read.1,
      kept,
      serialize_count_frame (count - 3) front.1 (p + front.0) p,
      deserialize_count-serialize_count (count - 3) front.1 (p + front.0),
    )

-- Writing a loss range takes 1 to 7 bytes and keeps every byte outside them.
pub range_frame :
    (start count : ℕ) (m : Memory) (p j : ℕ)
    → (j < p) ⊎ (p + (serialize_header start count m p).0 ≤ j)
    → (1 ≤ (serialize_header start count m p).0)
      × ((serialize_header start count m p).0 ≤ 7)
      × ((serialize_header start count m p).1 j ≡ m j)
unfolding serialize_header
range_frame start count m p j h =
    let front = serialize_start start count m p in
    ground (
      arith,
      serialize_start_size start count m p,
      serialize_start_frame start count m p j,
      serialize_count_size (count - 3) front.1 (p + front.0),
      serialize_count_frame (count - 3) front.1 (p + front.0) j,
    )

-- The reader looks at no byte outside the space that it is given.
pub range_local :
    (m m' : Memory) (p space : ℕ)
    → Agree m m' p (p + space)
    → deserialize_header m p space ≡ deserialize_header m' p space
unfolding deserialize_header
range_local m m' p space same = elim (dec_lt space 7) [
  | yes short ↦ ground arith
  | no room ↦
      let q = p + (deserialize_start m p).0 in
      let size = deserialize_start_size m p in
      let back = deserialize_count_size m q in
      ground (
        arith,
        same p,
        deserialize_start_exact m m' p (λ j lo hi. same j (omega arith) (omega arith)),
        deserialize_count_exact m m' q (λ j lo hi. same j (omega arith) (omega arith)),
      )
]

-- A loss range that was read: 1 to 7 bytes, from a space of 7 at least, and both numbers in range.
abbrev pub Bounded : ℕ → Option (ℕ × ℕ × ℕ) → Type 0
Bounded space none = Unit {0}
Bounded space (some (k, start, count)) =
    (1 ≤ k) × (k ≤ 7) × (7 ≤ space) × (start < 2 ^ 27) × (count < 2 ^ 22 + 3)

-- Whatever bytes it is given, the reader refuses, or it takes 1 to 7 bytes from a space of at least 7
-- and returns a start below 2 ^ 27 and a count, less one, below 2 ^ 22 + 3.
pub loss_range-Bounded :
    (m : Memory) (p space : ℕ) → IsBytes m → Bounded space (deserialize_header m p space)
unfolding deserialize_header
loss_range-Bounded m p space bytes =
    let q = p + (deserialize_start m p).0 in
    ground (
      arith,
      and_ones 2 (m p),
      deserialize_start_size m p,
      deserialize_start_bound m p bytes,
      deserialize_count_size m q,
      deserialize_count_bound m q bytes,
    )
