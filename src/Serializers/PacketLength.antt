-- ===== src/Serializers/PacketLength.antt =====
-- The packet length fields of SiameseSerializers.h, in 1 to 4 bytes at the front or the back of a
-- buffer. A serializer returns the bytes written and the new memory. A deserializer returns the
-- bytes read and the length; `none` is its -1, which leaves the output alone.
pub mod Laws
use siamese.Prelude.{ℕ, ◌+◌, ◌-◌, ◌*◌, ◌/◌, ◌%◌, ◌^◌, bit_and, bit_or, ◌<<<◌, ◌>>>◌, u8}
use siamese.Prelude.{Option, none, some, ltb, leb, ◌==◌, if◌then◌else◌, ◌||◌}
use siamese.Prelude.Memory.{Memory, store}

unfoldable pub serialize_header : ℕ → Memory → ℕ → ℕ × Memory
serialize_header length m buffer =
    if leb length 0x7f
    then (1, store m buffer (u8 length))
    else if leb length 0x3fff
    then (2, store (store m buffer (u8 (bit_or 0x80 (length >>> 8)))) (buffer + 1) (u8 length))
    else if leb length 0x1fffff
    then (
      3,
      store
          (store (store m buffer (u8 (bit_or 0xC0 (length >>> 16)))) (buffer + 1)
            (u8 (length >>> 8)))
          (buffer + 2) (u8 length),
    )
    else (
      4,
      store
          (store
            (store (store m buffer (u8 (bit_or 0xE0 (length >>> 24)))) (buffer + 1)
              (u8 (length >>> 16)))
            (buffer + 2) (u8 (length >>> 8)))
          (buffer + 3) (u8 length),
    )

unfoldable pub deserialize_header : Memory → ℕ → ℕ → Option (ℕ × ℕ)
deserialize_header m buffer space =
    if buffer == 0 || ltb space 1
    then none
    else let byte_count = m buffer >>> 6 in
      if leb byte_count 1
      then some (1, m buffer)
      else if byte_count == 2
      then if ltb space 2
        then none
        else some (2, bit_and (bit_or (m buffer <<< 8) (m (buffer + 1))) 0x3fff)
      else if bit_and (m buffer) 0xE0 == 0xC0
      then if ltb space 3
        then none
        else some (
          3,
          bit_and (bit_or (bit_or (m buffer <<< 16) (m (buffer + 1) <<< 8)) (m (buffer + 2)))
              0x1fffff,
        )
      else if ltb space 4
      then none
      else some (
        4,
        bit_and
            (bit_or
              (bit_or (bit_or (m buffer <<< 24) (m (buffer + 1) <<< 16)) (m (buffer + 2) <<< 8))
              (m (buffer + 3)))
            0x1fffffff,
      )

unfoldable pub serialize_footer : ℕ → Memory → ℕ → ℕ × Memory
serialize_footer length m buffer =
    if leb length 0x7f
    then (1, store m buffer (u8 length))
    else if leb length 0x3fff
    then (2, store (store m buffer (u8 length)) (buffer + 1) (u8 (bit_or 0x80 (length >>> 8))))
    else if leb length 0x1fffff
    then (
      3,
      store (store (store m buffer (u8 length)) (buffer + 1) (u8 (length >>> 8))) (buffer + 2)
          (u8 (bit_or 0xC0 (length >>> 16))),
    )
    else (
      4,
      store
          (store (store (store m buffer (u8 length)) (buffer + 1) (u8 (length >>> 8))) (buffer + 2)
            (u8 (length >>> 16)))
          (buffer + 3) (u8 (bit_or 0xE0 (length >>> 24))),
    )

unfoldable pub deserialize_footer : Memory → ℕ → ℕ → Option (ℕ × ℕ)
deserialize_footer m buffer space =
    if buffer == 0 || ltb space 1
    then none
    else let last = buffer + (space - 1) in
      let byte_count = m last >>> 6 in
      if leb byte_count 1
      then some (1, m last)
      else if byte_count == 2
      then if ltb space 2
        then none
        else some (2, bit_and (bit_or (m last <<< 8) (m (last - 1))) 0x3fff)
      else if bit_and (m last) 0xE0 == 0xC0
      then if ltb space 3
        then none
        else some (
          3,
          bit_and (bit_or (bit_or (m last <<< 16) (m (last - 1) <<< 8)) (m (last - 2))) 0x1fffff,
        )
      else if ltb space 4
      then none
      else some (
        4,
        bit_and
            (bit_or (bit_or (bit_or (m last <<< 24) (m (last - 1) <<< 16)) (m (last - 2) <<< 8))
              (m (last - 3)))
            0x1fffffff,
      )
