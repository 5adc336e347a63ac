-- ===== src/Serializers/Stream/Laws.antt =====
-- One field of a stream: where it goes, what it keeps and what it reads as.
use siamese.Prelude.{ℕ, ◌+◌, ◌^◌, ◌≤◌, ◌<◌, ◌≡◌, arith, ◌⊎◌}
use siamese.Prelude.Memory.{Memory, IsBytes}
use siamese.Serializers.Pod.Laws.{
  value_le, value_le-write, read-eq-value_le, write_frame, write-IsBytes,
}
use siamese.Serializers.Stream.Write.{WriteByteStream, write8, write16, write24, write32, write64}
use siamese.Serializers.Stream.Read.{ReadByteStream, read8, read16, read24, read32, read64}

-- The five widths of field that both streams have.
pub data Width : Type 0 where
  w8 w16 w24 w32 w64 : Width

abbrev pub size : Width → ℕ
size w8 = 1
size w16 = 2
size w24 = 3
size w32 = 4
size w64 = 8

abbrev pub write : Width → WriteByteStream → Memory → ℕ → WriteByteStream × Memory
write w8 = write8
write w16 = write16
write w24 = write24
write w32 = write32
write w64 = write64

abbrev pub read : Width → ReadByteStream → Memory → ℕ × ReadByteStream
read w8 = read8
read w16 = read16
read w24 = read24
read w32 = read32
read w64 = read64

pub write_state :
    (w : Width) (s : WriteByteStream) (m : Memory) (v : ℕ)
    → s.written_bytes + size w < 2 ^ 32
    → (write w s m v).0 ≡ record s { written_bytes = s.written_bytes + size w }
unfolding write8 write16 write24 write32 write64
write_state w8 s m v h = ground arith
write_state w16 s m v h = ground arith
write_state w24 s m v h = ground arith
write_state w32 s m v h = ground arith
write_state w64 s m v h = ground arith

pub write_keeps :
    (w : Width) (s : WriteByteStream) (m : Memory) (v j : ℕ)
    → (j < s.address + s.written_bytes) ⊎ (s.address + s.written_bytes + size w ≤ j)
    → (write w s m v).1 j ≡ m j
unfolding write8 write16 write24 write32 write64
write_keeps w8 s m v j h = ground arith
write_keeps w16 s m v j h = (write_frame m (s.address + s.written_bytes) v j).0 h
write_keeps w24 s m v j h = (write_frame m (s.address + s.written_bytes) v j).1 h
write_keeps w32 s m v j h = (write_frame m (s.address + s.written_bytes) v j).2 h
write_keeps w64 s m v j h = (write_frame m (s.address + s.written_bytes) v j).3 h

pub write_field-IsBytes :
    (w : Width) (s : WriteByteStream) (m : Memory) (v : ℕ) → IsBytes m → IsBytes (write w s m v).1
unfolding write8 write16 write24 write32 write64
write_field-IsBytes w8 s m v bytes = λ j. ground (arith, bytes j)
write_field-IsBytes w16 s m v bytes = (write-IsBytes m (s.address + s.written_bytes) v bytes).0
write_field-IsBytes w24 s m v bytes = (write-IsBytes m (s.address + s.written_bytes) v bytes).1
write_field-IsBytes w32 s m v bytes = (write-IsBytes m (s.address + s.written_bytes) v bytes).2
write_field-IsBytes w64 s m v bytes = (write-IsBytes m (s.address + s.written_bytes) v bytes).3

pub write_value :
    (w : Width) (s : WriteByteStream) (m : Memory) (v : ℕ)
    → v < 256 ^ size w
    → value_le (write w s m v).1 (s.address + s.written_bytes) (size w) ≡ v
unfolding write8 write16 write24 write32 write64
write_value w8 s m v h = unfold value_le in ground arith
write_value w16 s m v h = omega (arith, value_le-write m (s.address + s.written_bytes) v)
write_value w24 s m v h = omega (arith, value_le-write m (s.address + s.written_bytes) v)
write_value w32 s m v h = omega (arith, value_le-write m (s.address + s.written_bytes) v)
write_value w64 s m v h = omega (arith, value_le-write m (s.address + s.written_bytes) v)

pub read_value :
    (w : Width) (s : ReadByteStream) (m : Memory)
    → IsBytes m
    → (read w s m).0 ≡ value_le m (s.address + s.bytes_read) (size w)
unfolding read8 read16 read24 read32 read64
read_value w8 s m bytes = unfold value_le in ground arith
read_value w16 s m bytes = (read-eq-value_le m (s.address + s.bytes_read) bytes).0
read_value w24 s m bytes = (read-eq-value_le m (s.address + s.bytes_read) bytes).1
read_value w32 s m bytes = (read-eq-value_le m (s.address + s.bytes_read) bytes).2
read_value w64 s m bytes = (read-eq-value_le m (s.address + s.bytes_read) bytes).3

pub read_state :
    (w : Width) (s : ReadByteStream) (m : Memory)
    → s.bytes_read + size w < 2 ^ 32
    → (read w s m).1 ≡ record s { bytes_read = s.bytes_read + size w }
unfolding read8 read16 read24 read32 read64
read_state w8 s m h = ground arith
read_state w16 s m h = ground arith
read_state w24 s m h = ground arith
read_state w32 s m h = ground arith
read_state w64 s m h = ground arith
