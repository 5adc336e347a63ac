-- ===== src/Tools/PcgRandom/Laws.antt =====
-- The output of the generator as a rotation, and its step as a permutation.
use siamese.Prelude.{
  ℕ, ◌+◌, ◌-◌, ◌*◌, ◌/◌, ◌%◌, ◌^◌, ◌≤◌, ◌<◌, ◌≡◌, ap, ◌∙◌, arith, bit_and, bit_xor, u32, u64, ◌>>>◌,
}
use siamese.Prelude.{ltb, if◌then◌else◌, if_cases}
use Prim.Native.Nat.{max}
use native.Mathlib.Decide.{dec_lt}
use siamese.Prelude.Bits.{and_ones}
use siamese.Prelude.Digits.{bit, bit-bit_or, bit-shr, bit-shl, bit-mod}
use siamese.Tools.PcgRandom.{PcgRandom, multiplier, rotated, next}

-- The inverse of the multiplier modulo 2 ^ 64.
abbrev pub inverse : ℕ
inverse = 13877824140714322085

-- The generator before a step.
unfoldable pub previous : PcgRandom → PcgRandom
previous s = record s { state = u64 ((s.state + 2 ^ 64 - s.inc) * inverse) }

-- With a state and an increment of 64 bits, the step of the generator can be undone: multiplied by
-- the inverse of the multiplier, the new state less the increment is the old state.
pub previous-next : (s : PcgRandom) → s.state < 2 ^ 64 → s.inc < 2 ^ 64 → previous (next s).1 ≡ s
unfolding previous next
previous-next s h k =
    ap (λ (x : ℕ). record s { state = x })
      (let e : u64 ((u64 (s.state * multiplier + s.inc) + 2 ^ 64 - s.inc) * inverse) ≡ s.state =
          omega arith in
        e)

bit_above : (x i : ℕ) → x < 2 ^ 32 → 32 ≤ i → bit x i ≡ 0
bit_above x i h k =
    ap (λ (y : ℕ). bit y i) (let e : x ≡ x % 2 ^ 32 = omega arith in e)
    ∙ bit-mod 32 i x
    ∙ ground arith

shift : (rot : ℕ) → rot < 32 → bit_and (u32 (2 ^ 32 - rot)) 31 ≡ (32 - rot) % 32
shift rot h = and_ones 5 (u32 (2 ^ 32 - rot)) ∙ omega arith

-- A digit of the rotation, from the digits of the two shifts.
bit-shifts :
    (x rot i : ℕ)
    → rot < 32
    → i < 32
    → bit (rotated x rot) i
      ≡ max (bit x (rot + i)) (if ltb i ((32 - rot) % 32) then 0 else bit x (i - (32 - rot) % 32))
unfolding rotated
bit-shifts x rot i k l =
    let kk = bit_and (u32 (2 ^ 32 - rot)) 31 in
    bit-bit_or i (x >>> rot) (u32 (x * 2 ^ kk))
    ∙ ap (λ (b : ℕ). max b (bit (u32 (x * 2 ^ kk)) i)) (bit-shr rot i x)
    ∙ ap (max (bit x (rot + i))) (bit-mod 32 i (x * 2 ^ kk) ∙ ground arith ∙ bit-shl kk i x)
    ∙ ap (λ (n : ℕ). max (bit x (rot + i)) (if ltb i n then 0 else bit x (i - n))) (shift rot k)

bit-rotated :
    (x rot i : ℕ) → x < 2 ^ 32 → rot < 32 → i < 32 → bit (rotated x rot) i ≡ bit x ((i + rot) % 32)
bit-rotated x rot i h k l =
    let kk = (32 - rot) % 32 in
    bit-shifts x rot i k l
    ∙ if_cases (λ (b : ℕ). max (bit x (rot + i)) b ≡ bit x ((i + rot) % 32)) (ltb i kk)
        (λ t. omega (arith, ap (bit x) (let e : rot + i ≡ (i + rot) % 32 = ground arith in e)))
        (λ t. elim (dec_lt 0 rot) [
          | yes positive ↦ omega (
            arith,
            bit_above x (rot + i) h (ground arith),
            ap (bit x) (let e : i - kk ≡ (i + rot) % 32 = ground arith in e),
          )
          | no none_turned ↦ omega (
            arith,
            ap (bit x) (let e : rot + i ≡ (i + rot) % 32 = omega arith in e),
            ap (bit x) (let e : i - kk ≡ (i + rot) % 32 = omega arith in e),
          )
        ])

-- Digit i of what Next returns, from a state of 64 bits, is the digit of the 32 bits that the state
-- is combined to that lies higher by the state's top 5 bits, counted around 32 places.
pub bit-next :
    (s : PcgRandom) (i : ℕ)
    → s.state < 2 ^ 64
    → i < 32
    → bit (next s).0 i
      ≡ bit (u32 (bit_xor (s.state >>> 18) s.state >>> 27)) ((i + s.state / 2 ^ 59) % 32)
unfolding next
bit-next s i h k =
    let turn : u32 (s.state >>> 59) ≡ s.state / 2 ^ 59 = omega arith in
    let x = u32 (bit_xor (s.state >>> 18) s.state >>> 27) in
    bit-rotated x (u32 (s.state >>> 59)) i (omega arith) (omega arith) k
    ∙ ap (λ (n : ℕ). bit x ((i + n) % 32)) turn
