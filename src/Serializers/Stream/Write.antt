-- ===== src/Serializers/Stream/Write.antt =====
-- WriteByteStream.
use siamese.Prelude.{ℕ, ◌+◌, ◌-◌, ◌^◌, u8, u32, ltb, leb, ◌&&◌, if◌then◌else◌}
use siamese.Prelude.Memory.{Memory, store}
use siamese.Serializers.Pod.{write_u16_le, write_u24_le, write_u32_le, write_u64_le}

pub record WriteByteStream : Type 0 where
  pub address : ℕ
  pub buffer_bytes : ℕ
  pub written_bytes : ℕ

-- `bytes` is a 64-bit number that the constructor cuts to `unsigned`.
unfoldable pub open_at : ℕ → ℕ → WriteByteStream
open_at address bytes = record { address = address; buffer_bytes = u32 bytes; written_bytes = 0 }

unfoldable pub peek : WriteByteStream → ℕ
peek s = s.address + s.written_bytes

unfoldable pub remaining : WriteByteStream → ℕ
remaining s = u32 (s.buffer_bytes + 2 ^ 32 - s.written_bytes)

abbrev pub advance : WriteByteStream → ℕ → WriteByteStream
advance s n = record s { written_bytes = u32 (s.written_bytes + n) }

unfoldable pub write8 : WriteByteStream → Memory → ℕ → WriteByteStream × Memory
write8 s m value = (advance s 1, store m (s.address + s.written_bytes) (u8 value))

unfoldable pub write16 : WriteByteStream → Memory → ℕ → WriteByteStream × Memory
write16 s m value = (advance s 2, write_u16_le m (s.address + s.written_bytes) value)

unfoldable pub write24 : WriteByteStream → Memory → ℕ → WriteByteStream × Memory
write24 s m value = (advance s 3, write_u24_le m (s.address + s.written_bytes) value)

unfoldable pub write32 : WriteByteStream → Memory → ℕ → WriteByteStream × Memory
write32 s m value = (advance s 4, write_u32_le m (s.address + s.written_bytes) value)

unfoldable pub write64 : WriteByteStream → Memory → ℕ → WriteByteStream × Memory
write64 s m value = (advance s 8, write_u64_le m (s.address + s.written_bytes) value)

-- `memcpy` between regions that do not overlap.
abbrev pub copy : Memory → ℕ → ℕ → ℕ → Memory
copy m to from bytes j = if leb to j && ltb j (to + bytes) then m (from + (j - to)) else m j

unfoldable pub write_buffer : WriteByteStream → Memory → ℕ → ℕ → WriteByteStream × Memory
write_buffer s m source bytes =
    (advance s (u32 bytes), copy m (s.address + s.written_bytes) source bytes)
