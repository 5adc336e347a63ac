-- ===== src/Serializers/PacketNum/Laws.antt =====
-- Packet numbers written and read back, at the front and at the back of a buffer.
use siamese.Prelude.{ℕ, ◌+◌, ◌-◌, ◌*◌, ◌/◌, ◌%◌, ◌^◌, ◌≤◌, ◌<◌, ◌≡◌, arith, bit_or, ◌<<<◌}
use siamese.Prelude.{◌⊎◌, none, some, leb, if◌then◌else◌}
use siamese.Prelude.Memory.{Memory, Agree, IsBytes, WithinSpace}
use siamese.Prelude.Bits.{and_ones}
use siamese.Prelude.Int.{ℤ, pos, negsuc, pos_part}
use siamese.Serializers.Fields.{join2, join3, tag_80, tag_c0}
use siamese.Serializers.PacketNum.{
  serialize_header, deserialize_header, serialize_footer, deserialize_footer,
  deserialize_footer_unsafe,
}

-- A packet number below 2 ^ 22 that was written at the front of a buffer reads back, with the bytes
-- written as the bytes read, from any space that holds them; from a shorter space the answer is -1.
pub num_header_reads_back :
    (n : ℕ) (m : Memory) (p space : ℕ)
    → n < 2 ^ 22
    → 0 < p
    → deserialize_header (serialize_header n m p).1 p (pos space) ≡ (
        if leb (serialize_header n m p).0 space then some ((serialize_header n m p).0, n) else none)
unfolding deserialize_header serialize_header
num_header_reads_back n m p space h hp = ground (
  arith,
  tag_80 (n / 256),
  tag_c0 (n / 65536),
  join2 (128 + n / 256) (n % 256),
  join3 (192 + n / 65536) (n / 256 % 256) (n % 256),
  and_ones 14 ((128 + n / 256) * 256 + n % 256),
  and_ones 22 ((192 + n / 65536) * 65536 + n / 256 % 256 * 256 + n % 256),
)

-- The same of a packet number at the back: the buffer ends where the written bytes end.
pub num_footer_reads_back :
    (n : ℕ) (m : Memory) (p buffer space : ℕ)
    → n < 2 ^ 22
    → 0 < buffer
    → buffer + space ≡ p + (serialize_footer n m p).0
    → deserialize_footer (serialize_footer n m p).1 buffer (pos space) ≡ (
        if leb (serialize_footer n m p).0 space then some ((serialize_footer n m p).0, n) else none)
unfolding deserialize_footer serialize_footer
num_footer_reads_back n m p buffer space h hp e = ground (
  arith,
  tag_80 (n / 256),
  tag_c0 (n / 65536),
  join2 (128 + n / 256) (n % 256),
  join3 (192 + n / 65536) (n / 256 % 256) (n % 256),
  and_ones 14 ((128 + n / 256) * 256 + n % 256),
  and_ones 22 ((192 + n / 65536) * 65536 + n / 256 % 256 * 256 + n % 256),
)

-- Writing a packet number at either end takes the same 1 to 3 bytes and keeps every byte outside
-- them.
pub num_frame :
    (n : ℕ) (m : Memory) (p j : ℕ)
    → (j < p) ⊎ (p + (serialize_header n m p).0 ≤ j)
    → (1 ≤ (serialize_header n m p).0)
      × ((serialize_header n m p).0 ≤ 3)
      × ((serialize_header n m p).1 j ≡ m j)
      × ((serialize_footer n m p).0 ≡ (serialize_header n m p).0)
      × ((serialize_footer n m p).1 j ≡ m j)
unfolding serialize_header serialize_footer
num_frame n m p j h = (ground arith, ground arith, ground arith, ground arith, ground arith)

-- Either deserializer looks at no byte outside the space that it is given.
pub num_local :
    (m m' : Memory) (p : ℕ) (space : ℤ)
    → Agree m m' p (p + pos_part space)
    → (deserialize_header m p space ≡ deserialize_header m' p space)
      × (deserialize_footer m p space ≡ deserialize_footer m' p space)
unfolding deserialize_header deserialize_footer
num_local m m' p (negsuc s) same = (ground arith, ground arith)
num_local m m' p (pos s) same = (
  ground (arith, same p, same (p + 1), same (p + 2)),
  ground (arith, same (p + (s - 1)), same (p + (s - 1) - 1), same (p + (s - 1) - 2)),
)

-- Whatever bytes they are given, the deserializers accept 1 to 3 of them and no more than the space,
-- and the number is below 2 ^ 22.
pub num-WithinSpace :
    (m : Memory) (p : ℕ) (space : ℤ)
    → IsBytes m
    → WithinSpace (pos_part space) 3 (2 ^ 22) (deserialize_header m p space)
      × WithinSpace (pos_part space) 3 (2 ^ 22) (deserialize_footer m p space)
unfolding deserialize_header deserialize_footer
num-WithinSpace m p (negsuc s) bytes = (ground arith, ground arith)
num-WithinSpace m p (pos s) bytes = (
  ground (
    arith,
    bytes p,
    and_ones 14 (bit_or (m p <<< 8) (m (p + 1))),
    and_ones 22 (bit_or (bit_or (m p <<< 16) (m (p + 1) <<< 8)) (m (p + 2))),
  ),
  ground (
    arith,
    bytes (p + (s - 1)),
    and_ones 14 (bit_or (m (p + (s - 1)) <<< 8) (m (p + (s - 1) - 1))),
    and_ones 22 (
        bit_or (bit_or (m (p + (s - 1)) <<< 16) (m (p + (s - 1) - 1) <<< 8)) (m (p + (s - 1) - 2))),
  ),
)

-- With three bytes below its end, the footer reader without a length check reads what the checked
-- one does from any buffer that ends there.
pub footer_unsafe-eq-footer :
    (m : Memory) (p space : ℕ)
    → IsBytes m
    → 0 < p
    → 3 ≤ space
    → deserialize_footer m p (pos space) ≡ some (deserialize_footer_unsafe m (p + space))
unfolding deserialize_footer deserialize_footer_unsafe
footer_unsafe-eq-footer m p space bytes hp h = ground (arith, bytes (p + (space - 1)))

pub num_footer_size :
    (n : ℕ) (m : Memory) (p : ℕ)
    → (1 ≤ (serialize_footer n m p).0) × ((serialize_footer n m p).0 ≤ 3)
unfolding serialize_footer
num_footer_size n m p = (ground arith, ground arith)

pub num_footer_frame :
    (n : ℕ) (m : Memory) (p j : ℕ)
    → (j < p) ⊎ (p + (serialize_footer n m p).0 ≤ j)
    → (serialize_footer n m p).1 j ≡ m j
unfolding serialize_footer
num_footer_frame n m p j h = ground arith

-- A packet number below 2 ^ 22, written at the front or at the back of a buffer other than the null pointer, reads
-- back from any space that holds the written bytes, with their count as the bytes read; from a
-- shorter space the answer is -1. At the back the space ends where the written bytes end.
pub num_round_trip :
    (n : ℕ) (m : Memory) (p buffer space : ℕ)
    → n < 2 ^ 22
    → 0 < p
    → 0 < buffer
    → buffer + space ≡ p + (serialize_footer n m p).0
    → (deserialize_header (serialize_header n m p).1 p (pos space) ≡ (
        if leb (serialize_header n m p).0 space
        then some ((serialize_header n m p).0, n)
        else none))
      × (deserialize_footer (serialize_footer n m p).1 buffer (pos space) ≡ (
          if leb (serialize_footer n m p).0 space
          then some ((serialize_footer n m p).0, n)
          else none))
num_round_trip n m p buffer space h hp hb e =
    (num_header_reads_back n m p space h hp, num_footer_reads_back n m p buffer space h hb e)
