-- ===== src/Serializers/PacketCount/Laws.antt =====
-- Packet counts written and read back, at the front and at the back of a buffer.
use siamese.Prelude.{ℕ, ◌+◌, ◌-◌, ◌*◌, ◌/◌, ◌%◌, ◌^◌, ◌≤◌, ◌<◌, ◌≡◌, arith, bit_or, ◌<<<◌}
use siamese.Prelude.{◌⊎◌, none, some, leb, if◌then◌else◌}
use siamese.Prelude.Memory.{Memory, Agree, IsBytes, WithinSpace}
use siamese.Prelude.Bits.{and_ones, and_80}
use siamese.Serializers.Fields.{join2, join2_swapped, tag_80}
use siamese.Serializers.PacketCount.{
  serialize_header, deserialize_header, serialize_footer, deserialize_footer,
}

-- A count below 2 ^ 15 that was written at the front of a buffer reads back, with the bytes written
-- as the bytes read, from any space that holds them; from a shorter space the answer is -1.
pub count_header_reads_back :
    (n : ℕ) (m : Memory) (p space : ℕ)
    → n < 2 ^ 15
    → deserialize_header (serialize_header n m p).1 p space ≡ (
        if leb (serialize_header n m p).0 space then some ((serialize_header n m p).0, n) else none)
unfolding deserialize_header serialize_header
count_header_reads_back n m p space h = ground (
  arith,
  tag_80 (n / 256),
  and_80 n,
  and_80 (128 + n / 256),
  join2_swapped (128 + n / 256) (n % 256),
  and_ones 15 ((128 + n / 256) * 256 + n % 256),
)

-- The same of a count at the back: the buffer ends where the written bytes end.
pub count_footer_reads_back :
    (n : ℕ) (m : Memory) (p buffer space : ℕ)
    → n < 2 ^ 15
    → buffer + space ≡ p + (serialize_footer n m p).0
    → deserialize_footer (serialize_footer n m p).1 buffer space ≡ (
        if leb (serialize_footer n m p).0 space then some ((serialize_footer n m p).0, n) else none)
unfolding deserialize_footer serialize_footer
count_footer_reads_back n m p buffer space h e = ground (
  arith,
  tag_80 (n / 256),
  and_80 n,
  and_80 (128 + n / 256),
  join2 (128 + n / 256) (n % 256),
  and_ones 15 ((128 + n / 256) * 256 + n % 256),
)

-- Writing a count at either end takes the same 1 or 2 bytes and keeps every byte outside them.
pub count_frame :
    (n : ℕ) (m : Memory) (p j : ℕ)
    → (j < p) ⊎ (p + (serialize_header n m p).0 ≤ j)
    → (1 ≤ (serialize_header n m p).0)
      × ((serialize_header n m p).0 ≤ 2)
      × ((serialize_header n m p).1 j ≡ m j)
      × ((serialize_footer n m p).0 ≡ (serialize_header n m p).0)
      × ((serialize_footer n m p).1 j ≡ m j)
unfolding serialize_header serialize_footer
count_frame n m p j h = (ground arith, ground arith, ground arith, ground arith, ground arith)

-- Either deserializer looks at no byte outside the space that it is given.
pub count_local :
    (m m' : Memory) (p space : ℕ)
    → Agree m m' p (p + space)
    → (deserialize_header m p space ≡ deserialize_header m' p space)
      × (deserialize_footer m p space ≡ deserialize_footer m' p space)
unfolding deserialize_header deserialize_footer
count_local m m' p s same = (
  ground (arith, same p, same (p + 1)),
  ground (arith, same (p + (s - 1)), same (p + (s - 1) - 1)),
)

-- Whatever bytes they are given, the deserializers accept 1 or 2 of them and no more than the space,
-- and the count is below 2 ^ 15.
pub count-WithinSpace :
    (m : Memory) (p space : ℕ)
    → IsBytes m
    → WithinSpace space 2 (2 ^ 15) (deserialize_header m p space)
      × WithinSpace space 2 (2 ^ 15) (deserialize_footer m p space)
unfolding deserialize_header deserialize_footer
count-WithinSpace m p s bytes = (
  ground (arith, bytes p, and_ones 15 (bit_or (m (p + 1)) (m p <<< 8))),
  ground (
    arith,
    bytes (p + (s - 1)),
    and_ones 15 (bit_or (m (p + (s - 1)) <<< 8) (m (p + (s - 1) - 1))),
  ),
)

pub count_footer_size :
    (n : ℕ) (m : Memory) (p : ℕ)
    → (1 ≤ (serialize_footer n m p).0) × ((serialize_footer n m p).0 ≤ 2)
unfolding serialize_footer
count_footer_size n m p = (ground arith, ground arith)

pub count_footer_frame :
    (n : ℕ) (m : Memory) (p j : ℕ)
    → (j < p) ⊎ (p + (serialize_footer n m p).0 ≤ j)
    → (serialize_footer n m p).1 j ≡ m j
unfolding serialize_footer
count_footer_frame n m p j h = ground arith

-- A packet count below 2 ^ 15, written at the front or at the back of a buffer, reads
-- back from any space that holds the written bytes, with their count as the bytes read; from a
-- shorter space the answer is -1. At the back the space ends where the written bytes end.
pub count_round_trip :
    (n : ℕ) (m : Memory) (p buffer space : ℕ)
    → n < 2 ^ 15
    → buffer + space ≡ p + (serialize_footer n m p).0
    → (deserialize_header (serialize_header n m p).1 p space ≡ (
        if leb (serialize_header n m p).0 space
        then some ((serialize_header n m p).0, n)
        else none))
      × (deserialize_footer (serialize_footer n m p).1 buffer space ≡ (
          if leb (serialize_footer n m p).0 space
          then some ((serialize_footer n m p).0, n)
          else none))
count_round_trip n m p buffer space h e =
    (count_header_reads_back n m p space h, count_footer_reads_back n m p buffer space h e)
