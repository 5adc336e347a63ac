-- ===== src/Serializers/PacketLength/Laws.antt =====
-- Packet lengths written and read back, at the front and at the back of a buffer.
use siamese.Prelude.{ℕ, ◌+◌, ◌-◌, ◌*◌, ◌/◌, ◌%◌, ◌^◌, ◌≤◌, ◌<◌, ◌≡◌, arith, bit_or, ◌<<<◌}
use native.Mathlib.Decide.{dec_lt}
use siamese.Prelude.{◌⊎◌, Option, none, some, leb, if◌then◌else◌}
use siamese.Prelude.Memory.{Memory, Agree, IsBytes, WithinSpace}
use siamese.Prelude.Bits.{and_ones, and_e0}
use siamese.Serializers.Fields.{join2, join3, join4, tag_80, tag_c0, tag_e0}
use siamese.Serializers.PacketLength.{
  serialize_header, deserialize_header, serialize_footer, deserialize_footer,
}

-- What reading back gives: the bytes written and the length, or -1 if they exceed the space.
abbrev ReadsBack : ℕ × Memory → ℕ → ℕ → Option (ℕ × ℕ) → Type 0
ReadsBack written n space result =
    result ≡ (if leb written.0 space then some (written.0, n) else none)

-- The four sizes of the field, each from its own facts.
module _ (n : ℕ) (m : Memory) (p space : ℕ) (valid : 0 < p) where
  header_one_byte :
      n < 2 ^ 7
      → ReadsBack
          (serialize_header n m p)
          n
          space
          (deserialize_header (serialize_header n m p).1 p space)
  unfolding deserialize_header serialize_header
  header_one_byte hi = ground arith

  header_two_bytes :
      2 ^ 7 ≤ n
      → n < 2 ^ 14
      → ReadsBack
          (serialize_header n m p)
          n
          space
          (deserialize_header (serialize_header n m p).1 p space)
  unfolding deserialize_header serialize_header
  header_two_bytes lo hi = ground (
    arith,
    tag_80 (n / 256),
    join2 (128 + n / 256) (n % 256),
    and_ones 14 ((128 + n / 256) * 256 + n % 256),
  )

  header_three_bytes :
      2 ^ 14 ≤ n
      → n < 2 ^ 21
      → ReadsBack
          (serialize_header n m p)
          n
          space
          (deserialize_header (serialize_header n m p).1 p space)
  unfolding deserialize_header serialize_header
  header_three_bytes lo hi = ground (
    arith,
    tag_c0 (n / 65536),
    and_e0 (192 + n / 65536),
    join3 (192 + n / 65536) (n / 256 % 256) (n % 256),
    and_ones 21 ((192 + n / 65536) * 65536 + n / 256 % 256 * 256 + n % 256),
  )

  header_four_bytes :
      2 ^ 21 ≤ n
      → n < 2 ^ 29
      → ReadsBack
          (serialize_header n m p)
          n
          space
          (deserialize_header (serialize_header n m p).1 p space)
  unfolding deserialize_header serialize_header
  header_four_bytes lo hi = ground (
    arith,
    tag_e0 (n / 16777216),
    and_e0 (224 + n / 16777216),
    join4 (224 + n / 16777216) (n / 65536 % 256) (n / 256 % 256) (n % 256),
    and_ones 29
        ((224 + n / 16777216) * 16777216 + n / 65536 % 256 * 65536 + n / 256 % 256 * 256 + n % 256),
  )

module _ (n : ℕ) (m : Memory) (p buffer space : ℕ) (valid : 0 < buffer)
    (end : buffer + space ≡ p + (serialize_footer n m p).0) where
  footer_one_byte :
      n < 2 ^ 7
      → ReadsBack
          (serialize_footer n m p)
          n
          space
          (deserialize_footer (serialize_footer n m p).1 buffer space)
  unfolding deserialize_footer serialize_footer
  footer_one_byte hi = ground arith

  footer_two_bytes :
      2 ^ 7 ≤ n
      → n < 2 ^ 14
      → ReadsBack
          (serialize_footer n m p)
          n
          space
          (deserialize_footer (serialize_footer n m p).1 buffer space)
  unfolding deserialize_footer serialize_footer
  footer_two_bytes lo hi = ground (
    arith,
    tag_80 (n / 256),
    join2 (128 + n / 256) (n % 256),
    and_ones 14 ((128 + n / 256) * 256 + n % 256),
  )

  footer_three_bytes :
      2 ^ 14 ≤ n
      → n < 2 ^ 21
      → ReadsBack
          (serialize_footer n m p)
          n
          space
          (deserialize_footer (serialize_footer n m p).1 buffer space)
  unfolding deserialize_footer serialize_footer
  footer_three_bytes lo hi = ground (
    arith,
    tag_c0 (n / 65536),
    and_e0 (192 + n / 65536),
    join3 (192 + n / 65536) (n / 256 % 256) (n % 256),
    and_ones 21 ((192 + n / 65536) * 65536 + n / 256 % 256 * 256 + n % 256),
  )

  footer_four_bytes :
      2 ^ 21 ≤ n
      → n < 2 ^ 29
      → ReadsBack
          (serialize_footer n m p)
          n
          space
          (deserialize_footer (serialize_footer n m p).1 buffer space)
  unfolding deserialize_footer serialize_footer
  footer_four_bytes lo hi =
      ground
        (
          arith,
          tag_e0 (n / 16777216),
          and_e0 (224 + n / 16777216),
          join4 (224 + n / 16777216) (n / 65536 % 256) (n / 256 % 256) (n % 256),
          and_ones 29 (
              (224 + n / 16777216) * 16777216
              + n / 65536 % 256 * 65536
              + n / 256 % 256 * 256
              + n % 256),
        )
        steps 10000000

-- A length below 2 ^ 29 that was written at the front of a buffer reads back, with the bytes written
-- as the bytes read, from any space that holds them; from a shorter space the answer is -1.
pub length_header_reads_back :
    (n : ℕ) (m : Memory) (p space : ℕ)
    → n < 2 ^ 29
    → 0 < p
    → deserialize_header (serialize_header n m p).1 p space ≡ (
        if leb (serialize_header n m p).0 space then some ((serialize_header n m p).0, n) else none)
length_header_reads_back n m p space h hp = elim (dec_lt n (2 ^ 7)) [
  | yes one ↦ header_one_byte n m p space hp one
  | no two ↦ elim (dec_lt n (2 ^ 14)) [
    | yes below ↦ header_two_bytes n m p space hp (omega arith) below
    | no three ↦ elim (dec_lt n (2 ^ 21)) [
      | yes below ↦ header_three_bytes n m p space hp (omega arith) below
      | no four ↦ header_four_bytes n m p space hp (omega arith) h
    ]
  ]
]

-- The same of a length at the back: the buffer ends where the written bytes end.
pub length_footer_reads_back :
    (n : ℕ) (m : Memory) (p buffer space : ℕ)
    → n < 2 ^ 29
    → 0 < buffer
    → buffer + space ≡ p + (serialize_footer n m p).0
    → deserialize_footer (serialize_footer n m p).1 buffer space ≡ (
        if leb (serialize_footer n m p).0 space then some ((serialize_footer n m p).0, n) else none)
length_footer_reads_back n m p buffer space h hp e = elim (dec_lt n (2 ^ 7)) [
  | yes one ↦ footer_one_byte n m p buffer space hp e one
  | no two ↦ elim (dec_lt n (2 ^ 14)) [
    | yes below ↦ footer_two_bytes n m p buffer space hp e (omega arith) below
    | no three ↦ elim (dec_lt n (2 ^ 21)) [
      | yes below ↦ footer_three_bytes n m p buffer space hp e (omega arith) below
      | no four ↦ footer_four_bytes n m p buffer space hp e (omega arith) h
    ]
  ]
]

-- Writing a length at either end takes the same 1 to 4 bytes and keeps every byte outside them.
pub length_frame :
    (n : ℕ) (m : Memory) (p j : ℕ)
    → (j < p) ⊎ (p + (serialize_header n m p).0 ≤ j)
    → (1 ≤ (serialize_header n m p).0)
      × ((serialize_header n m p).0 ≤ 4)
      × ((serialize_header n m p).1 j ≡ m j)
      × ((serialize_footer n m p).0 ≡ (serialize_header n m p).0)
      × ((serialize_footer n m p).1 j ≡ m j)
unfolding serialize_header serialize_footer
length_frame n m p j h = (ground arith, ground arith, ground arith, ground arith, ground arith)

-- Either deserializer looks at no byte outside the space that it is given.
pub length_local :
    (m m' : Memory) (p space : ℕ)
    → Agree m m' p (p + space)
    → (deserialize_header m p space ≡ deserialize_header m' p space)
      × (deserialize_footer m p space ≡ deserialize_footer m' p space)
unfolding deserialize_header deserialize_footer
length_local m m' p s same = (
  ground (arith, same p, same (p + 1), same (p + 2), same (p + 3)),
  ground (
    arith,
    same (p + (s - 1)),
    same (p + (s - 1) - 1),
    same (p + (s - 1) - 2),
    same (p + (s - 1) - 3),
  ),
)

-- Whatever bytes they are given, the deserializers accept 1 to 4 of them and no more than the space,
-- and the length is below 2 ^ 29.
pub length-WithinSpace :
    (m : Memory) (p space : ℕ)
    → IsBytes m
    → WithinSpace space 4 (2 ^ 29) (deserialize_header m p space)
      × WithinSpace space 4 (2 ^ 29) (deserialize_footer m p space)
unfolding deserialize_header deserialize_footer
length-WithinSpace m p s bytes = (
  ground (
    arith,
    bytes p,
    and_ones 14 (bit_or (m p <<< 8) (m (p + 1))),
    and_ones 21 (bit_or (bit_or (m p <<< 16) (m (p + 1) <<< 8)) (m (p + 2))),
    and_ones 29
        (bit_or (bit_or (bit_or (m p <<< 24) (m (p + 1) <<< 16)) (m (p + 2) <<< 8)) (m (p + 3))),
  ),
  ground (
    arith,
    bytes (p + (s - 1)),
    and_ones 14 (bit_or (m (p + (s - 1)) <<< 8) (m (p + (s - 1) - 1))),
    and_ones 21 (
        bit_or (bit_or (m (p + (s - 1)) <<< 16) (m (p + (s - 1) - 1) <<< 8)) (m (p + (s - 1) - 2))),
    and_ones 29 (
        bit_or
          (bit_or (bit_or (m (p + (s - 1)) <<< 24) (m (p + (s - 1) - 1) <<< 16))
            (m (p + (s - 1) - 2) <<< 8))
          (m (p + (s - 1) - 3))),
  ),
)

-- A packet length below 2 ^ 29, written at the front or at the back of a buffer other than the null pointer, reads
-- back from any space that holds the written bytes, with their count as the bytes read; from a
-- shorter space the answer is -1. At the back the space ends where the written bytes end.
pub length_round_trip :
    (n : ℕ) (m : Memory) (p buffer space : ℕ)
    → n < 2 ^ 29
    → 0 < p
    → 0 < buffer
    → buffer + space ≡ p + (serialize_footer n m p).0
    → (deserialize_header (serialize_header n m p).1 p space ≡ (
        if leb (serialize_header n m p).0 space
        then some ((serialize_header n m p).0, n)
        else none))
      × (deserialize_footer (serialize_footer n m p).1 buffer space ≡ (
          if leb (serialize_footer n m p).0 space
          then some ((serialize_footer n m p).0, n)
          else none))
length_round_trip n m p buffer space h hp hb e =
    (length_header_reads_back n m p space h hp, length_footer_reads_back n m p buffer space h hb e)
