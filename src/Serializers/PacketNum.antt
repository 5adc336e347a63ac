-- ===== src/Serializers/PacketNum.antt =====
-- The packet number fields of SiameseSerializers.h, in 1 to 3 bytes at the front or the back of a
-- buffer. A serializer returns the bytes written and the new memory. A deserializer returns the
-- bytes read and the number; `none` is its -1, which leaves the output alone.
pub mod Laws
use siamese.Prelude.{ℕ, ◌+◌, ◌-◌, ◌*◌, ◌/◌, ◌%◌, ◌^◌, bit_and, bit_or, ◌<<<◌, ◌>>>◌, u8}
use siamese.Prelude.{Option, none, some, ltb, leb, ◌==◌, if◌then◌else◌, ◌||◌}
use siamese.Prelude.Memory.{Memory, store}
use siamese.Prelude.Int.{ℤ, pos_part, int_ltb}

unfoldable pub serialize_header : ℕ → Memory → ℕ → ℕ × Memory
serialize_header packet_num m buffer =
    if leb packet_num 0x7f
    then (1, store m buffer (u8 packet_num))
    else if leb packet_num 0x3fff
    then (
      2,
      store (store m buffer (u8 (bit_or 0x80 (packet_num >>> 8)))) (buffer + 1) (u8 packet_num),
    )
    else (
      3,
      store
          (store (store m buffer (u8 (bit_or 0xC0 (packet_num >>> 16)))) (buffer + 1)
            (u8 (packet_num >>> 8)))
          (buffer + 2) (u8 packet_num),
    )

unfoldable pub deserialize_header : Memory → ℕ → ℤ → Option (ℕ × ℕ)
deserialize_header m buffer space =
    if buffer == 0 || int_ltb space 1
    then none
    else let byte_count = m buffer >>> 6 in
      if leb byte_count 1
      then some (1, m buffer)
      else if int_ltb space byte_count
      then none
      else if byte_count == 2
      then some (byte_count, bit_and (bit_or (m buffer <<< 8) (m (buffer + 1))) 0x3fff)
      else some (
        byte_count,
        bit_and (bit_or (bit_or (m buffer <<< 16) (m (buffer + 1) <<< 8)) (m (buffer + 2)))
            0x3fffff,
      )

unfoldable pub serialize_footer : ℕ → Memory → ℕ → ℕ × Memory
serialize_footer packet_num m buffer =
    if leb packet_num 0x7f
    then (1, store m buffer (u8 packet_num))
    else if leb packet_num 0x3fff
    then (
      2,
      store (store m buffer (u8 packet_num)) (buffer + 1) (u8 (bit_or 0x80 (packet_num >>> 8))),
    )
    else (
      3,
      store (store (store m buffer (u8 packet_num)) (buffer + 1) (u8 (packet_num >>> 8)))
          (buffer + 2) (u8 (bit_or 0xC0 (packet_num >>> 16))),
    )

unfoldable pub deserialize_footer : Memory → ℕ → ℤ → Option (ℕ × ℕ)
deserialize_footer m buffer space =
    if buffer == 0 || int_ltb space 1
    then none
    else let last = buffer + (pos_part space - 1) in
      let byte_count = m last >>> 6 in
      if leb byte_count 1
      then some (1, m last)
      else if int_ltb space byte_count
      then none
      else if byte_count == 2
      then some (byte_count, bit_and (bit_or (m last <<< 8) (m (last - 1))) 0x3fff)
      else some (
        byte_count,
        bit_and (bit_or (bit_or (m last <<< 16) (m (last - 1) <<< 8)) (m (last - 2))) 0x3fffff,
      )

-- No length check: the three bytes below `buffer_end` are taken to be there.
unfoldable pub deserialize_footer_unsafe : Memory → ℕ → ℕ × ℕ
deserialize_footer_unsafe m buffer_end =
    let byte_count = m (buffer_end - 1) >>> 6 in
    if leb byte_count 1
    then (1, m (buffer_end - 1))
    else if byte_count == 2
    then (byte_count, bit_and (bit_or (m (buffer_end - 1) <<< 8) (m (buffer_end - 2))) 0x3fff)
    else (
      byte_count,
      bit_and
          (bit_or (bit_or (m (buffer_end - 1) <<< 16) (m (buffer_end - 2) <<< 8))
            (m (buffer_end - 3)))
          0x3fffff,
    )
