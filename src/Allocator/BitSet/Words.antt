-- ===== src/Allocator/BitSet/Words.antt =====
-- The words of a bit set, digit by digit: what each mask holds, and that `check` reads one digit.
use siamese.Prelude.{ℕ, zero, suc, ◌+◌, ◌-◌, ◌*◌, ◌/◌, ◌%◌, ◌^◌, ◌≤◌, ◌<◌, bit_and, bit_or}
use siamese.Prelude.{◌≡◌, ap, ◌∙◌, arith}
use siamese.Prelude.{true, false, not, ltb, leb, ◌==◌, if◌then◌else◌, u64, ◌<<<◌, ◌>>>◌}
use siamese.Prelude.Digits.{
  bit, bit-le-one, bit-shl, bit-mod, bit-mask, bit-power, bit-not, halve-shift,
}
use native.Mathlib.Nat.{one-le-pow, pow-suc}
use native.Mathlib.Decide.{dec_lt}
use siamese.Prelude.Bits.{bit_and_half, bit_or_half, bit_and_zero-right, bit_and_zero-left}
use siamese.Allocator.BitSet.{
  CustomBitSet, all_ones, complement, check, inner_mask, upper_mask, lower_mask,
}

-- Every word has 64 bits.
abbrev pub IsWords : CustomBitSet → Type 0
IsWords words = (i : ℕ) → words i < 2 ^ 64

pub single : (k i : ℕ) → k < 64 → i < 64 → bit (u64 (1 <<< k)) i ≡ (if i == k then 1 else 0)
single k i hk hi =
    let e : 1 * 2 ^ k ≡ 2 ^ k = omega arith in
    bit-mod 64 i (1 * 2 ^ k) ∙ ground (arith, ap (λ (x : ℕ). bit x i) e, bit-power k i)

pub bit-inner :
    (a e i : ℕ)
    → i < 64
    → a ≤ e
    → bit (inner_mask a e) i ≡ (if leb a i then if ltb i e then 1 else 0 else 0)
bit-inner a e i hi h =
    let one : 1 * 2 ^ (e - a) ≡ 2 ^ (e - a) = omega arith in
    bit-mod 64 i ((1 * 2 ^ (e - a) - 1) * 2 ^ a)
    ∙ ground (
      arith,
      bit-shl a i (1 * 2 ^ (e - a) - 1),
      ap (λ (x : ℕ). bit (x - 1) (i - a)) one,
      bit-mask (e - a) (i - a),
    )

pub bit-upper : (a i : ℕ) → i < 64 → bit (upper_mask a) i ≡ (if leb a i then 1 else 0)
bit-upper a i hi =
    bit-mod 64 i (all_ones * 2 ^ a) ∙ ground (arith, bit-shl a i all_ones, bit-mask 64 (i - a))

pub bit-lower : (k i : ℕ) → bit (lower_mask k) i ≡ (if ltb i k then 1 else 0)
bit-lower k i =
    let one : 1 * 2 ^ k ≡ 2 ^ k = omega arith in ap (λ (x : ℕ). bit (x - 1) i) one ∙ bit-mask k i

pub bit-complement : (i x : ℕ) → x < 2 ^ 64 → i < 64 → bit (complement x) i ≡ 1 - bit x i
bit-complement i x h hi = bit-not 64 i x h hi

-- The words stay 64 bits wide.
pub or_bound : (w a b : ℕ) → a < 2 ^ w → b < 2 ^ w → bit_or a b < 2 ^ w
or_bound zero zero zero h k = omega arith
or_bound zero zero (suc b) h k = absurd (omega arith)
or_bound zero (suc a) b h k = absurd (omega arith)
or_bound (suc w) a b h k = omega (
  arith,
  bit_or_half a b,
  pow-suc 2 w,
  or_bound w (a / 2) (b / 2) (omega (arith, pow-suc 2 w)) (omega (arith, pow-suc 2 w)),
)

pub and_bound : (w a b : ℕ) → a < 2 ^ w → bit_and a b < 2 ^ w
and_bound zero zero b h = omega (arith, bit_and_zero-left b)
and_bound zero (suc a) b h = absurd (omega arith)
and_bound (suc w) a b h =
    omega (
      arith,
      bit_and_half a b,
      pow-suc 2 w,
      and_bound w (a / 2) (b / 2) (omega (arith, pow-suc 2 w)),
    )

-- `w & (1 << k)`.
and_power : (k w : ℕ) → bit_and w (2 ^ k) ≡ bit w k * 2 ^ k
unfolding bit
and_power zero w = omega (arith, bit_and_half w 1, bit_and_zero-right (w / 2))
and_power (suc k) w =
    let half : 2 ^ suc k / 2 ≡ 2 ^ k = omega (arith, pow-suc 2 k) in
    omega (
      arith,
      bit_and_half w (2 ^ suc k),
      ap (bit_and (w / 2)) half,
      and_power k (w / 2),
      pow-suc 2 k,
      ap (λ (x : ℕ). bit (w / 2) k * x) (pow-suc 2 k),
    )

power_bound : (k d : ℕ) → 2 ^ k ≤ 2 ^ (k + d)
power_bound zero d =
    let e : zero + d ≡ d = omega arith in
    omega (arith, one-le-pow d 2 (omega arith), ap (λ (x : ℕ). 2 ^ x) e)
power_bound (suc k) d =
    let e : suc k + d ≡ suc (k + d) = omega arith in
    omega (arith, pow-suc 2 k, pow-suc 2 (k + d), ap (λ (x : ℕ). 2 ^ x) e, power_bound k d)

shift_one : (k : ℕ) → k < 64 → u64 (1 <<< k) ≡ 2 ^ k
shift_one k h =
    let e : suc k + (63 - k) ≡ 64 = omega arith in
    omega (
      arith,
      power_bound (suc k) (63 - k),
      ap (λ (x : ℕ). 2 ^ x) e,
      pow-suc 2 k,
      one-le-pow k 2 (omega arith),
    )

-- `check` reads the digit of its bit.
pub check-eq-bit :
    (words : CustomBitSet) (j : ℕ) → check words j ≡ (bit (words (j / 64)) (j % 64) == 1)
unfolding check
check-eq-bit words j =
    let k = j % 64 in
    let w = words (j / 64) in
    let e : bit_and w (u64 (1 <<< k)) ≡ bit w k * 2 ^ k =
      ap (bit_and w) (shift_one k (omega arith)) ∙ and_power k w in
    rw e (elim (dec_lt (bit w k) 1) [
      | yes h ↦
          let z : bit w k ≡ 0 = omega arith in
          let t : (bit w k * 2 ^ k == 0) ≡ true = ground (arith, ap (λ (x : ℕ). x * 2 ^ k) z) in
          ap not t ∙ ground arith
      | no h ↦
          let z : bit w k ≡ 1 = omega (arith, bit-le-one k w) in
          let t : (bit w k * 2 ^ k == 0) ≡ false =
            ground (arith, ap (λ (x : ℕ). x * 2 ^ k) z, one-le-pow k 2) in
          ap not t ∙ ground arith
    ])

pub lower_bound : (k : ℕ) → k < 64 → lower_mask k < 2 ^ 64
lower_bound k h = omega (arith, power_bound k (64 - k), shift_one k h)

pub shift_bound : (k m x : ℕ) → x < 2 ^ (k + m) → x >>> k < 2 ^ m
shift_bound zero m x h =
    let e : zero + m ≡ m = omega arith in omega (arith, ap (λ (t : ℕ). 2 ^ t) e)
shift_bound (suc k) m x h =
    let e : suc k + m ≡ suc (k + m) = omega arith in
    let half : x / 2 < 2 ^ (k + m) = omega (arith, ap (λ (t : ℕ). 2 ^ t) e, pow-suc 2 (k + m)) in
    omega (arith, halve-shift x k, shift_bound k m (x / 2) half)

-- A bit named by its word and its place there.
pub check_at :
    (words : CustomBitSet) (i b : ℕ) → b < 64 → check words (i * 64 + b) ≡ (bit (words i) b == 1)
check_at words i b h =
    let e : (i * 64 + b) / 64 ≡ i = omega arith in
    let f : (i * 64 + b) % 64 ≡ b = omega arith in
    check-eq-bit words (i * 64 + b)
    ∙ ap (λ (x : ℕ). bit (words x) ((i * 64 + b) % 64) == 1) e
    ∙ ap (λ (x : ℕ). bit (words i) x == 1) f
