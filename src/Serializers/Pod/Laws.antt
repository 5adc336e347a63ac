-- ===== src/Serializers/Pod/Laws.antt =====
-- What the integer readers and writers mean: the little-endian value of the bytes.
use siamese.Prelude.{
  ℕ, zero, suc, ◌+◌, ◌*◌, ◌/◌, ◌%◌, ◌^◌, ◌≤◌, ◌<◌, ◌≡◌, ◌∙◌, refl, ap, arith, ◌⊎◌, bit_or, ◌<<<◌,
}
use native.Mathlib.Nat.{pow-suc}
use siamese.Prelude.Memory.{Memory, Agree, IsBytes}
use siamese.Prelude.Bits.{or_fields}
use siamese.Serializers.Fields.{join2, join3, join4}
use siamese.Serializers.Pod.{
  read_u16_le, read_u24_le, read_u32_le, read_u64_le, write_u16_le, write_u24_le, write_u32_le,
  write_u64_le,
}

-- The number whose n bytes, least significant first, stand at an address.
unfoldable pub value_le : Memory → ℕ → ℕ → ℕ
value_le m p zero = 0
value_le m p (suc n) = m p + 256 * value_le m (p + 1) n

pub value_le-bound : (n : ℕ) (m : Memory) (p : ℕ) → IsBytes m → value_le m p n < 256 ^ n
unfolding value_le
value_le-bound zero m p bytes = omega arith
value_le-bound (suc n) m p bytes =
    grind (arith, bytes p, value_le-bound n m (p + 1) bytes, pow-suc 256 n)

join8 :
    (a b c d e f g h : ℕ)
    → b < 256
    → c < 256
    → d < 256
    → e < 256
    → f < 256
    → g < 256
    → h < 256
    → bit_or
        (bit_or
          (bit_or
            (bit_or
              (bit_or (bit_or (bit_or (a <<< 56) (b <<< 48)) (c <<< 40)) (d <<< 32))
              (e <<< 24))
            (f <<< 16))
          (g <<< 8))
        h
      ≡ ((((((a * 256 + b) * 256 + c) * 256 + d) * 256 + e) * 256 + f) * 256 + g) * 256 + h
join8 a b c d e f g h hb hc hd he hf hg hh =
    let n1 : ℕ = a * 256 + b in
    let n2 : ℕ = n1 * 256 + c in
    let n3 : ℕ = n2 * 256 + d in
    let n4 : ℕ = n3 * 256 + e in
    let e1 : bit_or (a <<< 56) (b <<< 48) ≡ n1 <<< 48 =
      or_fields 56 a (b <<< 48) (omega arith) ∙ omega arith in
    let e2 : bit_or (n1 <<< 48) (c <<< 40) ≡ n2 <<< 40 =
      or_fields 48 n1 (c <<< 40) (omega arith) ∙ omega arith in
    let e3 : bit_or (n2 <<< 40) (d <<< 32) ≡ n3 <<< 32 =
      or_fields 40 n2 (d <<< 32) (omega arith) ∙ omega arith in
    let e4 : bit_or (n3 <<< 32) (e <<< 24) ≡ n4 <<< 24 =
      or_fields 32 n3 (e <<< 24) (omega arith) ∙ omega arith in
    rw (e1, e2, e3, e4) (join4 n4 f g h hf hg hh ∙ omega arith)

-- Each reader returns the little-endian value of its bytes.
pub read-eq-value_le :
    (m : Memory) (p : ℕ)
    → IsBytes m
    → (read_u16_le m p ≡ value_le m p 2)
      × (read_u24_le m p ≡ value_le m p 3)
      × (read_u32_le m p ≡ value_le m p 4)
      × (read_u64_le m p ≡ value_le m p 8)
unfolding read_u16_le read_u24_le read_u32_le read_u64_le value_le
read-eq-value_le m p bytes =
    let b : (k : ℕ) → m (p + k) < 256 = λ k. bytes (p + k) in
    let next : (k : ℕ) → m (p + k + 1) ≡ m (p + (k + 1)) = λ k. ap m (omega arith) in
    (
      ground (arith, bytes p, b 1, join2 (m (p + 1)) (m p)),
      ground (arith, bytes p, b 1, join3 (m (p + 2)) (m (p + 1)) (m p)),
      ground (arith, bytes p, b 1, b 2, join4 (m (p + 3)) (m (p + 2)) (m (p + 1)) (m p)),
      ground (
        arith,
        join8 (m (p + 7)) (m (p + 6)) (m (p + 5)) (m (p + 4)) (m (p + 3)) (m (p + 2)) (m (p + 1))
            (m p) (b 6) (b 5) (b 4) (b 3) (b 2) (b 1) (bytes p),
      ),
    )

-- The eight bytes by their addresses.
value_le-eight :
    (m : Memory) (p : ℕ)
    → value_le m p 8
      ≡ m p
        + m (p + 1) * 256
        + m (p + 2) * 256 ^ 2
        + m (p + 3) * 256 ^ 3
        + m (p + 4) * 256 ^ 4
        + m (p + 5) * 256 ^ 5
        + m (p + 6) * 256 ^ 6
        + m (p + 7) * 256 ^ 7
unfolding value_le
value_le-eight m p = ground arith

write_u64_low :
    (m : Memory) (p v : ℕ)
    → let m' = write_u64_le m p v in
      (m' p ≡ v % 256)
      × (m' (p + 1) ≡ v / 2 ^ 8 % 256)
      × (m' (p + 2) ≡ v / 2 ^ 16 % 256)
      × (m' (p + 3) ≡ v / 2 ^ 24 % 256)
unfolding write_u64_le
write_u64_low m p v = (ground arith, ground arith, ground arith, ground arith)

write_u64_high :
    (m : Memory) (p v : ℕ)
    → let m' = write_u64_le m p v in
      (m' (p + 4) ≡ v / 2 ^ 32 % 256)
      × (m' (p + 5) ≡ v / 2 ^ 40 % 256)
      × (m' (p + 6) ≡ v / 2 ^ 48 % 256)
      × (m' (p + 7) ≡ v / 2 ^ 56 % 256)
unfolding write_u64_le
write_u64_high m p v = (ground arith, ground arith, ground arith, ground arith)

value_le-write_u64 : (m : Memory) (p v : ℕ) → value_le (write_u64_le m p v) p 8 ≡ v % 2 ^ 64
value_le-write_u64 m p v =
    omega (arith, value_le-eight (write_u64_le m p v) p, write_u64_low m p v, write_u64_high m p v)

-- Each writer stores the low bytes of its value, so that the value of its bytes is that of the
-- number, cut to the width.
pub value_le-write :
    (m : Memory) (p v : ℕ)
    → (value_le (write_u16_le m p v) p 2 ≡ v % 2 ^ 16)
      × (value_le (write_u24_le m p v) p 3 ≡ v % 2 ^ 24)
      × (value_le (write_u32_le m p v) p 4 ≡ v % 2 ^ 32)
      × (value_le (write_u64_le m p v) p 8 ≡ v % 2 ^ 64)
unfolding write_u16_le write_u24_le write_u32_le value_le
value_le-write m p v = (ground arith, ground arith, ground arith, value_le-write_u64 m p v)

-- A writer keeps every byte outside its own.
pub write_frame :
    (m : Memory) (p v j : ℕ)
    → ((j < p) ⊎ (p + 2 ≤ j) → write_u16_le m p v j ≡ m j)
      × ((j < p) ⊎ (p + 3 ≤ j) → write_u24_le m p v j ≡ m j)
      × ((j < p) ⊎ (p + 4 ≤ j) → write_u32_le m p v j ≡ m j)
      × ((j < p) ⊎ (p + 8 ≤ j) → write_u64_le m p v j ≡ m j)
unfolding write_u16_le write_u24_le write_u32_le write_u64_le
write_frame m p v j = (λ h. ground arith, λ h. ground arith, λ h. ground arith, λ h. ground arith)

-- A byte is stored at every address after a write of bytes.
pub write-IsBytes :
    (m : Memory) (p v : ℕ)
    → IsBytes m
    → IsBytes (write_u16_le m p v)
      × IsBytes (write_u24_le m p v)
      × IsBytes (write_u32_le m p v)
      × IsBytes (write_u64_le m p v)
unfolding write_u16_le write_u24_le write_u32_le write_u64_le
write-IsBytes m p v bytes = (
  λ j. ground (arith, bytes j),
  λ j. ground (arith, bytes j),
  λ j. ground (arith, bytes j),
  λ j. ground (arith, bytes j),
)

-- The value of n bytes depends on those bytes only.
pub value_le_local :
    (n : ℕ) (m m' : Memory) (p : ℕ) → Agree m m' p (p + n) → value_le m p n ≡ value_le m' p n
unfolding value_le
value_le_local zero m m' p same = refl
value_le_local (suc n) m m' p same = omega (
  arith,
  same p (omega arith) (omega arith),
  value_le_local n m m' (p + 1) (λ j lo hi. same j (omega arith) (omega arith)),
)
