-- ===== src/Serializers/Pod.antt =====
-- The plain integers of SiameseSerializers.h, least significant byte first: the variants that
-- GF256_ALIGNED_ACCESSES selects, as on the ARM targets, which go byte by byte.
pub mod Laws
use siamese.Prelude.{ℕ, ◌+◌, ◌*◌, ◌/◌, ◌%◌, ◌^◌, bit_or, ◌<<<◌, ◌>>>◌, u8, u16}
use siamese.Prelude.Memory.{Memory, store}

unfoldable pub read_u16_le : Memory → ℕ → ℕ
read_u16_le m ptr = u16 (bit_or (m (ptr + 1) <<< 8) (m ptr))

unfoldable pub read_u24_le : Memory → ℕ → ℕ
read_u24_le m ptr = bit_or (bit_or (m (ptr + 2) <<< 16) (m (ptr + 1) <<< 8)) (m ptr)

unfoldable pub read_u24_le_min4_bytes : Memory → ℕ → ℕ
unfolding read_u24_le
read_u24_le_min4_bytes m ptr = read_u24_le m ptr

unfoldable pub read_u32_le : Memory → ℕ → ℕ
read_u32_le m ptr =
    bit_or (bit_or (bit_or (m (ptr + 3) <<< 24) (m (ptr + 2) <<< 16)) (m (ptr + 1) <<< 8)) (m ptr)

unfoldable pub read_u64_le : Memory → ℕ → ℕ
read_u64_le m ptr =
    let high =
      bit_or (bit_or (bit_or (m (ptr + 7) <<< 56) (m (ptr + 6) <<< 48)) (m (ptr + 5) <<< 40))
        (m (ptr + 4) <<< 32) in
    bit_or
      (bit_or (bit_or (bit_or high (m (ptr + 3) <<< 24)) (m (ptr + 2) <<< 16)) (m (ptr + 1) <<< 8))
      (m ptr)

unfoldable pub write_u16_le : Memory → ℕ → ℕ → Memory
write_u16_le m ptr value = store (store m (ptr + 1) (u8 (value >>> 8))) ptr (u8 value)

unfoldable pub write_u24_le : Memory → ℕ → ℕ → Memory
unfolding write_u16_le
write_u24_le m ptr value = write_u16_le (store m (ptr + 2) (u8 (value >>> 16))) ptr (u16 value)

unfoldable pub write_u24_le_min4_bytes : Memory → ℕ → ℕ → Memory
unfolding write_u24_le
write_u24_le_min4_bytes m ptr value = write_u24_le m ptr value

unfoldable pub write_u32_le : Memory → ℕ → ℕ → Memory
write_u32_le m ptr value =
    store
      (store (store (store m (ptr + 3) (u8 (value >>> 24))) (ptr + 2) (u8 (value >>> 16))) (ptr + 1)
        (u8 (value >>> 8)))
      ptr (u8 value)

unfoldable pub write_u64_le : Memory → ℕ → ℕ → Memory
write_u64_le m ptr value =
    let high =
      store
        (store (store (store m (ptr + 7) (u8 (value >>> 56))) (ptr + 6) (u8 (value >>> 48)))
          (ptr + 5) (u8 (value >>> 40)))
        (ptr + 4) (u8 (value >>> 32)) in
    store
      (store (store (store high (ptr + 3) (u8 (value >>> 24))) (ptr + 2) (u8 (value >>> 16)))
        (ptr + 1) (u8 (value >>> 8)))
      ptr (u8 value)
