-- ===== src/Prelude/Xor.antt =====
-- `^` on unbounded naturals: its lowest digit and its half, and that it can be cancelled.
use Prim.Native.Nat.{ℕ, zero, suc, ◌+◌, ◌-◌, ◌*◌, ◌/◌, ◌%◌, ◌^◌, ◌≤◌, ◌<◌, bit_xor, differ}
use Prim.Native.Nat.{bit_xor-bitwise}
use mathlib.Core.Path.{◌≡◌, refl, sym, ap, ◌∙◌}
use native.Mathlib.Nat.{pow-suc, one-le-pow}
use native.Mathlib.Omega.{arith}
use siamese.Prelude.Bits.{bitwise_half}

bit_xor_half : (a b : ℕ) → bit_xor a b ≡ bit_xor (a / 2) (b / 2) * 2 + differ (a % 2) (b % 2)
bit_xor_half zero b = simp bit_xor-bitwise (omega arith)
bit_xor_half (suc a) b = simp bit_xor-bitwise (bitwise_half (λ b. b) differ a b)

-- On one digit.
differ_cancel : (a b c : ℕ) → a < 2 → b < 2 → c < 2 → differ a b ≡ differ a c → b ≡ c
differ_cancel zero b c h k l e = e
differ_cancel (suc zero) zero zero h k l e = refl
differ_cancel (suc zero) (suc zero) (suc zero) h k l e = refl
differ_cancel (suc zero) zero (suc zero) h k l e = sym e
differ_cancel (suc zero) (suc zero) zero h k l e = sym e
differ_cancel a (suc (suc b)) c h k l e = absurd (omega arith)
differ_cancel a b (suc (suc c)) h k l e = absurd (omega arith)
differ_cancel (suc (suc a)) b c h k l e = absurd (omega arith)

differ_bit : (a b : ℕ) → a < 2 → b < 2 → differ a b < 2
differ_bit zero b h k = k
differ_bit (suc zero) zero h k = omega arith
differ_bit (suc zero) (suc zero) h k = omega arith
differ_bit a (suc (suc b)) h k = absurd (omega arith)
differ_bit (suc (suc a)) b h k = absurd (omega arith)

pub bit_xor_cancel : (w a b c : ℕ) → b < 2 ^ w → c < 2 ^ w → bit_xor a b ≡ bit_xor a c → b ≡ c
bit_xor_cancel zero a b c h k e = omega arith
bit_xor_cancel (suc w) a b c h k e =
    let low_b = differ_bit (a % 2) (b % 2) (omega arith) (omega arith) in
    let low_c = differ_bit (a % 2) (c % 2) (omega arith) (omega arith) in
    let high : bit_xor (a / 2) (b / 2) ≡ bit_xor (a / 2) (c / 2) =
      omega (arith, bit_xor_half a b, bit_xor_half a c) in
    let low : differ (a % 2) (b % 2) ≡ differ (a % 2) (c % 2) =
      omega (arith, bit_xor_half a b, bit_xor_half a c) in
    let halves =
      bit_xor_cancel w (a / 2) (b / 2) (c / 2) (omega (arith, pow-suc 2 w))
        (omega (arith, pow-suc 2 w)) high in
    let digits =
      differ_cancel (a % 2) (b % 2) (c % 2) (omega arith) (omega arith) (omega arith) low in
    omega (arith, halves, digits)

differ_self : (a : ℕ) → a < 2 → differ a a ≡ 0
differ_self zero h = refl
differ_self (suc zero) h = refl
differ_self (suc (suc a)) h = absurd (omega arith)

pub bit_xor_self : (w a : ℕ) → a < 2 ^ w → bit_xor a a ≡ 0
bit_xor_self zero a h = ap (λ (y : ℕ). bit_xor y y) (let e : a ≡ 0 = omega arith in e)
bit_xor_self (suc w) a h = omega (
  arith,
  bit_xor_half a a,
  differ_self (a % 2) (omega arith),
  bit_xor_self w (a / 2) (omega (arith, pow-suc 2 w)),
)

pub bit_xor_bound : (w a b : ℕ) → a < 2 ^ w → b < 2 ^ w → bit_xor a b < 2 ^ w
bit_xor_bound zero a b h k =
    let e : bit_xor a b ≡ 0 =
      ap (λ (y : ℕ). bit_xor y b) (let z : a ≡ 0 = omega arith in z)
      ∙ ap (bit_xor 0) (let z : b ≡ 0 = omega arith in z) in
    omega arith
bit_xor_bound (suc w) a b h k = omega (
  arith,
  bit_xor_half a b,
  pow-suc 2 w,
  differ_bit (a % 2) (b % 2) (omega arith) (omega arith),
  bit_xor_bound w (a / 2) (b / 2) (omega (arith, pow-suc 2 w)) (omega (arith, pow-suc 2 w)),
)

differ_comm : (a b : ℕ) → a < 2 → b < 2 → differ a b ≡ differ b a
differ_comm zero zero h k = refl
differ_comm zero (suc zero) h k = refl
differ_comm (suc zero) zero h k = refl
differ_comm (suc zero) (suc zero) h k = refl
differ_comm a (suc (suc b)) h k = absurd (omega arith)
differ_comm (suc (suc a)) b h k = absurd (omega arith)

pub bit_xor_comm : (w a b : ℕ) → a < 2 ^ w → b < 2 ^ w → bit_xor a b ≡ bit_xor b a
bit_xor_comm zero a b h k =
    let same : a ≡ b = omega arith in ap (λ (y : ℕ). bit_xor y b) same ∙ ap (bit_xor b) (sym same)
bit_xor_comm (suc w) a b h k = omega (
  arith,
  bit_xor_half a b,
  bit_xor_half b a,
  differ_comm (a % 2) (b % 2) (omega arith) (omega arith),
  bit_xor_comm w (a / 2) (b / 2) (omega (arith, pow-suc 2 w)) (omega (arith, pow-suc 2 w)),
)

bit_xor_digits :
    (a b : ℕ)
    → (bit_xor a b / 2 ≡ bit_xor (a / 2) (b / 2)) × (bit_xor a b % 2 ≡ differ (a % 2) (b % 2))
bit_xor_digits a b =
    let digit = differ_bit (a % 2) (b % 2) (omega arith) (omega arith) in
    (omega (arith, bit_xor_half a b), omega (arith, bit_xor_half a b))

differ_assoc : (a b c : ℕ) → a < 2 → b < 2 → c < 2 → differ (differ a b) c ≡ differ a (differ b c)
differ_assoc zero b c h k l = refl
differ_assoc (suc zero) zero c h k l = refl
differ_assoc (suc zero) (suc zero) zero h k l = refl
differ_assoc (suc zero) (suc zero) (suc zero) h k l = refl
differ_assoc a b (suc (suc c)) h k l = absurd (omega arith)
differ_assoc a (suc (suc b)) c h k l = absurd (omega arith)
differ_assoc (suc (suc a)) b c h k l = absurd (omega arith)

bit_xor_assoc_below :
    (w a b c : ℕ)
    → a < 2 ^ w
    → b < 2 ^ w
    → c < 2 ^ w
    → bit_xor (bit_xor a b) c ≡ bit_xor a (bit_xor b c)
bit_xor_assoc_below zero a b c h k l =
    let a_zero : a ≡ 0 = omega arith in
    let b_zero : b ≡ 0 = omega arith in
    let c_zero : c ≡ 0 = omega arith in cc (a_zero, b_zero, c_zero)
bit_xor_assoc_below (suc w) a b c h k l =
    let left = bit_xor_digits a b in
    let right = bit_xor_digits b c in
    omega (
      arith,
      bit_xor_half (bit_xor a b) c,
      bit_xor_half a (bit_xor b c),
      ap (λ (x : ℕ). bit_xor x (c / 2)) left.0,
      ap (bit_xor (a / 2)) right.0,
      ap (λ (x : ℕ). differ x (c % 2)) left.1,
      ap (differ (a % 2)) right.1,
      differ_assoc (a % 2) (b % 2) (c % 2) (omega arith) (omega arith) (omega arith),
      bit_xor_assoc_below w (a / 2) (b / 2) (c / 2) (omega (arith, pow-suc 2 w))
          (omega (arith, pow-suc 2 w)) (omega (arith, pow-suc 2 w)),
    )

-- Every number has enough digits.
below_power : (a b : ℕ) → a < 2 ^ (a + b)
below_power zero b = one-le-pow (0 + b) 2 (omega arith)
below_power (suc a) b =
    let e : suc a + b ≡ suc (a + b) = omega arith in
    omega (arith, below_power a b, pow-suc 2 (a + b), ap (λ (n : ℕ). 2 ^ n) e)

below_wide : (a w : ℕ) → a ≤ w → a < 2 ^ w
below_wide a w h =
    let e : a + (w - a) ≡ w = omega arith in
    omega (arith, below_power a (w - a), ap (λ (n : ℕ). 2 ^ n) e)

bit_xor_swap_below :
    (w a b c : ℕ)
    → a < 2 ^ w
    → b < 2 ^ w
    → c < 2 ^ w
    → bit_xor (bit_xor a b) c ≡ bit_xor (bit_xor a c) b
bit_xor_swap_below w a b c h k l =
    bit_xor_assoc_below w a b c h k l
    ∙ ap (bit_xor a) (bit_xor_comm w b c k l)
    ∙ sym (bit_xor_assoc_below w a c b h l k)

pub bit_xor_swap : (a b c : ℕ) → bit_xor (bit_xor a b) c ≡ bit_xor (bit_xor a c) b
bit_xor_swap a b c =
    let w = a + b + c in
    bit_xor_swap_below w a b c (below_wide a w (omega arith)) (below_wide b w (omega arith))
      (below_wide c w (omega arith))

bit_xor_zero : (b : ℕ) → bit_xor 0 b ≡ b
bit_xor_zero b = bit_xor-bitwise 0 b

pub bit_xor_zero-right : (a : ℕ) → bit_xor a 0 ≡ a
bit_xor_zero-right a =
    bit_xor_comm a a 0 (below_wide a a (omega arith)) (below_wide 0 a (omega arith))
    ∙ bit_xor_zero a

-- What is combined twice falls out.
pub bit_xor_twice : (a b : ℕ) → bit_xor (bit_xor a b) a ≡ b
bit_xor_twice a b =
    bit_xor_swap a b a
    ∙ ap (λ (x : ℕ). bit_xor x b) (bit_xor_self a a (below_wide a a (omega arith)))
    ∙ bit_xor_zero b
