-- ===== src/Serializers/PacketCount.antt =====
-- The packet count fields of SiameseSerializers.h, in 1 or 2 bytes at the front or the back of a
-- buffer. A serializer returns the bytes written and the new memory. A deserializer returns the
-- bytes read and the count; `none` is its -1, which leaves the output alone.
pub mod Laws
use siamese.Prelude.{ℕ, ◌+◌, ◌-◌, ◌*◌, ◌/◌, ◌%◌, ◌^◌, bit_and, bit_or, ◌<<<◌, ◌>>>◌, u8}
use siamese.Prelude.{Option, none, some, ltb, leb, ◌==◌, if◌then◌else◌}
use siamese.Prelude.Memory.{Memory, store}

unfoldable pub serialize_header : ℕ → Memory → ℕ → ℕ × Memory
serialize_header count m buffer =
    if leb count 127
    then (1, store m buffer (u8 count))
    else (2, store (store m buffer (u8 (bit_or 0x80 (count >>> 8)))) (buffer + 1) (u8 count))

unfoldable pub deserialize_header : Memory → ℕ → ℕ → Option (ℕ × ℕ)
deserialize_header m buffer space =
    if ltb space 1
    then none
    else if bit_and (m buffer) 0x80 == 0
    then some (1, m buffer)
    else if ltb space 2
    then none
    else some (2, bit_and (bit_or (m (buffer + 1)) (m buffer <<< 8)) 0x7fff)

unfoldable pub serialize_footer : ℕ → Memory → ℕ → ℕ × Memory
serialize_footer count m buffer =
    if leb count 127
    then (1, store m buffer (u8 count))
    else (2, store (store m buffer (u8 count)) (buffer + 1) (u8 (bit_or 0x80 (count >>> 8))))

unfoldable pub deserialize_footer : Memory → ℕ → ℕ → Option (ℕ × ℕ)
deserialize_footer m buffer space =
    if ltb space 1
    then none
    else let last = buffer + (space - 1) in
      if bit_and (m last) 0x80 == 0
      then some (1, m last)
      else if ltb space 2
      then none
      else some (2, bit_and (bit_or (m last <<< 8) (m (last - 1))) 0x7fff)
