-- ===== src/Prelude/Digits.antt =====
-- The binary digits of a number, and what the word operations do to each of them.
use Prim.Native.Nat.{ℕ, zero, suc, ◌+◌, ◌-◌, ◌*◌, ◌/◌, ◌%◌, ◌^◌, ◌≤◌, ◌<◌, bit_and, bit_or}
use Prim.Native.Nat.{min, max}
use mathlib.Core.Path.{◌≡◌, refl, sym, ap, ◌∙◌}
use native.Mathlib.Nat.{pow-suc, one-le-pow, div-div-eq-div-mul, div-one}
use native.Mathlib.Omega.{arith}
use siamese.Prelude.Tests.{ltb, ◌==◌, if◌then◌else◌}
use siamese.Prelude.Bits.{bit_or_half, bit_and_half, mod_double}

-- The digit at place i.
unfoldable pub bit : ℕ → ℕ → ℕ
bit x zero = x % 2
bit x (suc i) = bit (x / 2) i

pub bit-le-one : (i x : ℕ) → bit x i ≤ 1
unfolding bit
bit-le-one zero x = omega arith
bit-le-one (suc i) x = bit-le-one i (x / 2)

pub bit-bit_or : (i a b : ℕ) → bit (bit_or a b) i ≡ max (bit a i) (bit b i)
unfolding bit
bit-bit_or zero a b = omega (arith, bit_or_half a b)
bit-bit_or (suc i) a b =
    let half : bit_or a b / 2 ≡ bit_or (a / 2) (b / 2) = omega (arith, bit_or_half a b) in
    ap (λ (x : ℕ). bit x i) half ∙ bit-bit_or i (a / 2) (b / 2)

pub bit-bit_and : (i a b : ℕ) → bit (bit_and a b) i ≡ min (bit a i) (bit b i)
unfolding bit
bit-bit_and zero a b = omega (arith, bit_and_half a b)
bit-bit_and (suc i) a b =
    let half : bit_and a b / 2 ≡ bit_and (a / 2) (b / 2) = omega (arith, bit_and_half a b) in
    ap (λ (x : ℕ). bit x i) half ∙ bit-bit_and i (a / 2) (b / 2)

pub bit-zero : (i : ℕ) → bit 0 i ≡ 0
unfolding bit
bit-zero zero = refl
bit-zero (suc i) = bit-zero i

pub halve-shift : (x k : ℕ) → x / 2 ^ suc k ≡ x / 2 / 2 ^ k
halve-shift x k =
    let twice : 2 ^ suc k ≡ 2 * 2 ^ k = omega (arith, pow-suc 2 k) in
    ap (λ (t : ℕ). x / t) twice ∙ sym (div-div-eq-div-mul x 2 (2 ^ k))

pub bit-shr : (k i x : ℕ) → bit (x / 2 ^ k) i ≡ bit x (k + i)
bit-shr zero i x =
    let e : i ≡ zero + i = omega arith in ap (λ (y : ℕ). bit y i) (div-one x) ∙ ap (bit x) e
bit-shr (suc k) i x =
    let e : suc (k + i) ≡ suc k + i = omega arith in
    ap (λ (y : ℕ). bit y i) (halve-shift x k) ∙ bit-shr k i (x / 2) ∙ unfold bit in ap (bit x) e

pub double-half : (x k : ℕ) → x * 2 ^ suc k / 2 ≡ x * 2 ^ k
double-half x k = omega (arith, ap (λ (t : ℕ). x * t) (pow-suc 2 k))

pub double-even : (x k : ℕ) → x * 2 ^ suc k % 2 ≡ 0
double-even x k = omega (arith, ap (λ (t : ℕ). x * t) (pow-suc 2 k))

pub bit-shl : (k i x : ℕ) → bit (x * 2 ^ k) i ≡ (if ltb i k then 0 else bit x (i - k))
unfolding bit
bit-shl zero zero x = omega arith
bit-shl zero (suc i) x = let e : x * 1 ≡ x = omega arith in rw e (ground arith)
bit-shl (suc k) zero x = ground (arith, double-even x k)
bit-shl (suc k) (suc i) x = ap (λ (y : ℕ). bit y i) (double-half x k) ∙ bit-shl k i x ∙ ground arith

pub bit-mod : (w i x : ℕ) → bit (x % 2 ^ w) i ≡ (if ltb i w then bit x i else 0)
unfolding bit
bit-mod zero zero x = omega arith
bit-mod zero (suc i) x = let e : x % 1 / 2 ≡ 0 = omega arith in rw e (bit-zero i ∙ ground arith)
bit-mod (suc w) zero x = ground (arith, mod_double x (2 ^ w), one-le-pow w 2, pow-suc 2 w)
bit-mod (suc w) (suc i) x =
    let whole : x % 2 ^ suc w ≡ x / 2 % 2 ^ w * 2 + x % 2 =
      ap (λ (t : ℕ). x % t) (pow-suc 2 w)
      ∙ sym (mod_double x (2 ^ w) (one-le-pow w 2 (omega arith))) in
    let half : x % 2 ^ suc w / 2 ≡ x / 2 % 2 ^ w = omega (arith, whole) in
    ap (λ (y : ℕ). bit y i) half ∙ bit-mod w i (x / 2) ∙ ground arith

-- The k low ones.
pub bit-mask : (k i : ℕ) → bit (2 ^ k - 1) i ≡ (if ltb i k then 1 else 0)
unfolding bit
bit-mask zero i = bit-zero i ∙ ground arith
bit-mask (suc k) zero = ground (arith, pow-suc 2 k, one-le-pow k 2)
bit-mask (suc k) (suc i) =
    let half : (2 ^ suc k - 1) / 2 ≡ 2 ^ k - 1 =
      omega (arith, pow-suc 2 k, one-le-pow k 2 (omega arith)) in
    ap (λ (y : ℕ). bit y i) half ∙ bit-mask k i ∙ ground arith

-- A single one.
pub bit-power : (k i : ℕ) → bit (2 ^ k) i ≡ (if i == k then 1 else 0)
unfolding bit
bit-power zero zero = refl
bit-power zero (suc i) = bit-zero i ∙ ground arith
bit-power (suc k) zero = ground (arith, pow-suc 2 k)
bit-power (suc k) (suc i) =
    let half : 2 ^ suc k / 2 ≡ 2 ^ k = omega (arith, pow-suc 2 k) in
    ap (λ (y : ℕ). bit y i) half ∙ bit-power k i ∙ ground arith

-- The complement of a word of w digits.
pub bit-not : (w i x : ℕ) → x < 2 ^ w → i < w → bit (2 ^ w - 1 - x) i ≡ 1 - bit x i
unfolding bit
bit-not zero i x h hi = absurd (omega arith)
bit-not (suc w) zero x h hi = omega (arith, pow-suc 2 w)
bit-not (suc w) (suc i) x h hi =
    let half : (2 ^ suc w - 1 - x) / 2 ≡ 2 ^ w - 1 - x / 2 = omega (arith, pow-suc 2 w) in
    ap (λ (y : ℕ). bit y i) half ∙ bit-not w i (x / 2) (omega (arith, pow-suc 2 w)) (omega arith)

-- A number below 2 ^ w with no digit set is 0.
pub zero_of_bits : (w x : ℕ) → x < 2 ^ w → ((i : ℕ) → bit x i ≡ 0) → x ≡ 0
unfolding bit
zero_of_bits zero x h none = omega arith
zero_of_bits (suc w) x h none =
    omega (arith, none 0, zero_of_bits w (x / 2) (omega (arith, pow-suc 2 w)) (λ i. none (suc i)))
