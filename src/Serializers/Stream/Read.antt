-- ===== src/Serializers/Stream/Read.antt =====
-- ReadByteStream.
use siamese.Prelude.{ℕ, ◌+◌, ◌-◌, ◌^◌, u32}
use siamese.Prelude.Memory.{Memory}
use siamese.Serializers.Pod.{read_u16_le, read_u24_le, read_u32_le, read_u64_le}

pub record ReadByteStream : Type 0 where
  pub address : ℕ
  pub buffer_bytes : ℕ
  pub bytes_read : ℕ

unfoldable pub open_at : ℕ → ℕ → ReadByteStream
open_at address bytes = record { address = address; buffer_bytes = u32 bytes; bytes_read = 0 }

unfoldable pub peek : ReadByteStream → ℕ
peek s = s.address + s.bytes_read

unfoldable pub remaining : ReadByteStream → ℕ
remaining s = u32 (s.buffer_bytes + 2 ^ 32 - s.bytes_read)

unfoldable pub skip : ReadByteStream → ℕ → ReadByteStream
skip s bytes = record s { bytes_read = u32 (s.bytes_read + bytes) }

-- A pointer to the bytes that are passed over.
unfoldable pub read : ReadByteStream → ℕ → ℕ × ReadByteStream
unfolding peek skip
read s bytes = (peek s, skip s bytes)

unfoldable pub read8 : ReadByteStream → Memory → ℕ × ReadByteStream
unfolding peek skip
read8 s m = (m (peek s), skip s 1)

unfoldable pub read16 : ReadByteStream → Memory → ℕ × ReadByteStream
unfolding peek skip
read16 s m = (read_u16_le m (peek s), skip s 2)

unfoldable pub read24 : ReadByteStream → Memory → ℕ × ReadByteStream
unfolding peek skip
read24 s m = (read_u24_le m (peek s), skip s 3)

unfoldable pub read32 : ReadByteStream → Memory → ℕ × ReadByteStream
unfolding peek skip
read32 s m = (read_u32_le m (peek s), skip s 4)

unfoldable pub read64 : ReadByteStream → Memory → ℕ × ReadByteStream
unfolding peek skip
read64 s m = (read_u64_le m (peek s), skip s 8)
