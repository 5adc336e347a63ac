-- ===== src/Serializers/NackRange/Start.antt =====
-- The relative start of a loss range, with its flags.
use siamese.Prelude.{ℕ, ◌+◌, ◌*◌, ◌/◌, ◌%◌, ◌^◌, ◌≤◌, ◌<◌, ◌≡◌, ap, arith, bit_or, bit_and, ◌⊎◌}
use siamese.Prelude.{leb, if◌then◌else◌}
use siamese.Prelude.Memory.{Memory, Agree, IsBytes}
use siamese.Prelude.Bits.{
  and_ones, and_80, and_4, or_fields_swapped, bit_or_half, bit_or_zero-right,
}
use native.Mathlib.Decide.{dec_lt}
use siamese.Serializers.NackRange.{first_byte, serialize_start, deserialize_start}

-- Setting bit 2, and bit 7 of a byte.
or_4 : (x : ℕ) → x / 4 % 2 ≡ 0 → bit_or x 4 ≡ x + 4
or_4 x h = omega (
  arith,
  bit_or_half x 4,
  bit_or_half (x / 2) 2,
  bit_or_half (x / 2 / 2) 1,
  bit_or_zero-right (x / 2 / 2 / 2),
)

-- The lowest digit is kept by a flag above it.
or_even : (x c : ℕ) → bit_or x (c * 2) ≡ bit_or (x / 2) c * 2 + x % 2
or_even x c = omega (arith, bit_or_half x (c * 2), ap (bit_or (x / 2)) (half c))
  where
    half : (c : ℕ) → c * 2 / 2 ≡ c
    half c = omega arith

or_1 : (x : ℕ) → bit_or x 1 ≡ x / 2 * 2 + 1
or_1 x = omega (arith, bit_or_half x 1, bit_or_zero-right (x / 2))

pub or_80_mod : (x : ℕ) → bit_or x 0x80 % 256 ≡ x % 128 + 128
or_80_mod x = omega (
  arith,
  or_even x 64,
  or_even (x / 2) 32,
  or_even (x / 2 / 2) 16,
  or_even (x / 2 / 2 / 2) 8,
  or_even (x / 2 / 2 / 2 / 2) 4,
  or_even (x / 2 / 2 / 2 / 2 / 2) 2,
  or_even (x / 2 / 2 / 2 / 2 / 2 / 2) 1,
  or_1 (x / 2 / 2 / 2 / 2 / 2 / 2 / 2),
)

-- The flags of a count.
abbrev pub flags : ℕ → ℕ
flags count = if leb count 2 then count else 3

first_byte_lem :
    (start count : ℕ) → start < 2 ^ 27 → first_byte start count ≡ start * 8 + flags count
first_byte_lem start count h = ground (arith, or_fields_swapped 3 start (flags count))

-- What reading the start back gives: its bytes, its value, and the flags of the count.
abbrev ReadsStart : ℕ → ℕ → Memory → ℕ → Type 0
ReadsStart start count m p =
    let written = serialize_start start count m p in
    (deserialize_start written.1 p ≡ (written.0, start)) × (bit_and (written.1 p) 3 ≡ flags count)

module _ (start count : ℕ) (m : Memory) (p : ℕ) where
  abbrev b0 : ℕ
  b0 = start % 32 * 8 + 4 + flags count

  one_byte : start < 2 ^ 5 → ReadsStart start count m p
  unfolding serialize_start deserialize_start
  one_byte h = (
    ground (arith, first_byte_lem start count (omega arith), and_4 (start * 8 + flags count)),
    ground (arith, first_byte_lem start count (omega arith), and_ones 2 (start * 8 + flags count)),
  )

  two_bytes : 2 ^ 5 ≤ start → start < 2 ^ 12 → ReadsStart start count m p
  unfolding serialize_start deserialize_start
  two_bytes lo h = (
    ground (
      arith,
      first_byte_lem start count (omega arith),
      or_4 (start * 8 + flags count),
      and_4 b0,
      and_ones 7 (start / 32),
      and_80 (start / 32),
      or_fields_swapped 5 (start / 32) (start % 32),
    ),
    ground (
      arith,
      first_byte_lem start count (omega arith),
      or_4 (start * 8 + flags count),
      and_ones 2 b0,
    ),
  )

  abbrev b1 : ℕ
  b1 = start / 32 % 128 + 128

  abbrev low2 : ℕ
  low2 = start % 2 ^ 12

  three_bytes : 2 ^ 12 ≤ start → start < 2 ^ 19 → ReadsStart start count m p
  unfolding serialize_start deserialize_start
  three_bytes lo h = (
    ground (
      arith,
      first_byte_lem start count (omega arith),
      or_4 (start * 8 + flags count),
      or_80_mod (start / 32),
      and_4 b0,
      and_ones 7 b1,
      and_80 b1,
      or_fields_swapped 5 (start / 32 % 128) (start % 32),
      and_ones 7 (start / 4096),
      and_80 (start / 4096),
      or_fields_swapped 12 (start / 4096) low2,
    ),
    ground (
      arith,
      first_byte_lem start count (omega arith),
      or_4 (start * 8 + flags count),
      and_ones 2 b0,
    ),
  )

  abbrev b2 : ℕ
  b2 = start / 4096 % 128 + 128

  four_bytes : 2 ^ 19 ≤ start → start < 2 ^ 27 → ReadsStart start count m p
  unfolding serialize_start deserialize_start
  four_bytes lo h = (
    ground
        (
          arith,
          first_byte_lem start count (omega arith),
          or_4 (start * 8 + flags count),
          or_80_mod (start / 32),
          or_80_mod (start / 4096),
          and_4 b0,
          and_ones 7 b1,
          and_80 b1,
          or_fields_swapped 5 (start / 32 % 128) (start % 32),
          and_ones 7 b2,
          and_80 b2,
          or_fields_swapped 12 (start / 4096 % 128) low2,
          or_fields_swapped 19 (start / 524288) (start % 2 ^ 19),
        )
        steps 10000000,
    ground (
      arith,
      first_byte_lem start count (omega arith),
      or_4 (start * 8 + flags count),
      and_ones 2 b0,
    ),
  )

-- A start below 2 ^ 27 reads back, beside the flags of whatever count was written with it.
pub reads_start :
    (start count : ℕ) (m : Memory) (p : ℕ) → start < 2 ^ 27 → ReadsStart start count m p
reads_start start count m p h = elim (dec_lt start (2 ^ 5)) [
  | yes one ↦ one_byte start count m p one
  | no two ↦ elim (dec_lt start (2 ^ 12)) [
    | yes below ↦ two_bytes start count m p (omega arith) below
    | no three ↦ elim (dec_lt start (2 ^ 19)) [
      | yes below ↦ three_bytes start count m p (omega arith) below
      | no four ↦ four_bytes start count m p (omega arith) h
    ]
  ]
]

pub serialize_start_frame :
    (start count : ℕ) (m : Memory) (p j : ℕ)
    → (j < p) ⊎ (p + (serialize_start start count m p).0 ≤ j)
    → (serialize_start start count m p).1 j ≡ m j
unfolding serialize_start
serialize_start_frame start count m p j h = ground arith

pub serialize_start_size :
    (start count : ℕ) (m : Memory) (p : ℕ)
    → (1 ≤ (serialize_start start count m p).0) × ((serialize_start start count m p).0 ≤ 4)
unfolding serialize_start
serialize_start_size start count m p = (ground arith, ground arith)

-- Reading the start uses no more than the bytes that it reports.
pub deserialize_start_exact :
    (m m' : Memory) (p : ℕ)
    → Agree m m' p (p + (deserialize_start m p).0)
    → deserialize_start m p ≡ deserialize_start m' p
unfolding deserialize_start
deserialize_start_exact m m' p same =
    ground (arith, same p, same (p + 1), same (p + 2), same (p + 3))

pub deserialize_start_size :
    (m : Memory) (p : ℕ) → (1 ≤ (deserialize_start m p).0) × ((deserialize_start m p).0 ≤ 4)
unfolding deserialize_start
deserialize_start_size m p = (ground arith, ground arith)

pub deserialize_start_bound : (m : Memory) (p : ℕ) → IsBytes m → (deserialize_start m p).1 < 2 ^ 27
unfolding deserialize_start
deserialize_start_bound m p bytes =
    let low : ℕ = m p / 8 in
    let low1 : ℕ = m (p + 1) % 128 * 32 + low in
    ground (
      arith,
      bytes p,
      bytes (p + 3),
      and_ones 7 (m (p + 1)),
      or_fields_swapped 5 (m (p + 1) % 128) low,
      and_ones 7 (m (p + 2)),
      or_fields_swapped 12 (m (p + 2) % 128) low1,
      or_fields_swapped 19 (m (p + 3)) (m (p + 2) % 128 * 4096 + low1),
    )
