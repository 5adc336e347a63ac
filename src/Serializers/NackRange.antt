-- ===== src/Serializers/NackRange.antt =====
-- The NACK loss range of SiameseSerializers.h, in 1 to 7 bytes at the front of a buffer: the relative
-- start with its flags in up to 4 bytes, then the loss count beyond 3 in up to 3. Each function of
-- the source is split into these two parts, which its second half's moved buffer pointer joins.
pub mod Start
pub mod Count
pub mod Laws
use siamese.Prelude.{ℕ, ◌+◌, ◌-◌, ◌*◌, ◌/◌, ◌%◌, ◌^◌, bit_and, bit_or, ◌<<<◌, ◌>>>◌, u8, u32}
use siamese.Prelude.{Option, none, some, ltb, leb, ◌==◌, if◌then◌else◌, ◌||◌}
use siamese.Prelude.Memory.{Memory, store}

-- The first byte: the count flags, and the low bits of the start above the extension flag.
abbrev first_byte : ℕ → ℕ → ℕ
first_byte start count = bit_or (if leb count 2 then count else 3) (u32 (start <<< 3))

unfoldable pub serialize_start : ℕ → ℕ → Memory → ℕ → ℕ × Memory
serialize_start start count m buffer =
    let byte0 = first_byte start count in
    if ltb start (2 ^ 5)
    then (1, store m buffer (u8 byte0))
    else if ltb start (2 ^ 12)
    then (2, store (store m (buffer + 1) (u8 (start >>> 5))) buffer (u8 (bit_or byte0 4)))
    else if ltb start (2 ^ 19)
    then (
      3,
      store
          (store (store m (buffer + 2) (u8 (start >>> 12))) (buffer + 1)
            (u8 (bit_or (start >>> 5) 0x80)))
          buffer (u8 (bit_or byte0 4)),
    )
    else (
      4,
      store
          (store
            (store (store m (buffer + 3) (u8 (start >>> 19))) (buffer + 2)
              (u8 (bit_or (start >>> 12) 0x80)))
            (buffer + 1) (u8 (bit_or (start >>> 5) 0x80)))
          buffer (u8 (bit_or byte0 4)),
    )

-- `count` is what is left after the 3 that the flags stand for.
unfoldable pub serialize_count : ℕ → Memory → ℕ → ℕ × Memory
serialize_count count m buffer =
    if ltb count (2 ^ 7)
    then (1, store m buffer (u8 count))
    else if ltb count (2 ^ 14)
    then (2, store (store m (buffer + 1) (u8 (count >>> 7))) buffer (u8 (bit_or count 0x80)))
    else (
      3,
      store
          (store (store m (buffer + 2) (u8 (count >>> 14))) (buffer + 1)
            (u8 (bit_or (count >>> 7) 0x80)))
          buffer (u8 (bit_or count 0x80)),
    )

unfoldable pub serialize_header : ℕ → ℕ → Memory → ℕ → ℕ × Memory
serialize_header start count m buffer =
    let front = serialize_start start count m buffer in
    if leb 3 count
    then (let back = serialize_count (count - 3) front.1 (buffer + front.0) in
        (front.0 + back.0, back.1))
    else front

unfoldable pub deserialize_start : Memory → ℕ → ℕ × ℕ
deserialize_start m buffer =
    let low = m buffer >>> 3 in
    if bit_and (m buffer) 4 == 0
    then (1, low)
    else let low1 = bit_or low (bit_and (m (buffer + 1)) 0x7f <<< 5) in
      if bit_and (m (buffer + 1)) 0x80 == 0
      then (2, low1)
      else let low2 = bit_or low1 (bit_and (m (buffer + 2)) 0x7f <<< 12) in
        if bit_and (m (buffer + 2)) 0x80 == 0
        then (3, low2)
        else (4, bit_or low2 (m (buffer + 3) <<< 19))

unfoldable pub deserialize_count : Memory → ℕ → ℕ × ℕ
deserialize_count m buffer =
    let sum = 3 + bit_and (m buffer) 0x7f in
    if bit_and (m buffer) 0x80 == 0
    then (1, sum)
    else let sum1 = sum + (bit_and (m (buffer + 1)) 0x7f <<< 7) in
      if bit_and (m (buffer + 1)) 0x80 == 0 then (2, sum1) else (3, sum1 + (m (buffer + 2) <<< 14))

-- The bytes read, the relative start and the loss count less one.
unfoldable pub deserialize_header : Memory → ℕ → ℕ → Option (ℕ × ℕ × ℕ)
deserialize_header m buffer space =
    if buffer == 0 || ltb space 7
    then none
    else let front = deserialize_start m buffer in
      if bit_and (m buffer) 3 == 3
      then (let back = deserialize_count m (buffer + front.0) in
          some (front.0 + back.0, front.1, back.1))
      else some (front.0, front.1, bit_and (m buffer) 3)
