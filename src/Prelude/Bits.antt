-- ===== src/Prelude/Bits.antt =====
-- `&` and `|` on unbounded naturals: each acts on the lowest digit and on the halves. From that
-- come the two readings that packed formats use: `|` of disjoint fields is a
-- sum, `&` with a run of ones is a remainder.
use Prim.Native.Nat.{ℕ, zero, suc, ◌+◌, ◌-◌, ◌*◌, ◌/◌, ◌%◌, ◌^◌, ◌≤◌, ◌<◌, min, max}
use Prim.Native.Nat.{bit_and, bit_or, digits, bitwise}
use Prim.Native.Nat.{bit_and-bitwise, bit_or-bitwise}
use mathlib.Core.Path.{◌≡◌, refl, sym, ap, ◌∙◌}
use native.Mathlib.Nat.{pow-suc, one-le-pow, add-mul-mod_self_right, mod-eq_of_lt, div-add-mod'}
use native.Mathlib.Nat.{mod-lt}
use mathlib.Core.Bool.{Bool, true, ◌&&◌}
use native.Mathlib.Omega.{arith}
use siamese.Prelude.Tests.{◌==◌}

module _ (z : ℕ → ℕ) (f : ℕ → ℕ → ℕ) where
  digits-suc : (n a b : ℕ) → a ≤ n → digits z f (suc n) a b ≡ digits z f n a b
  digits-suc n zero b h = elim n as (λ n. digits z f (suc n) zero b ≡ digits z f n zero b) [
    | zero ↦ refl
    | suc m ↦ refl
  ]
  digits-suc zero (suc a) b h = absurd (omega arith)
  digits-suc (suc n) (suc a) b h =
      ap (λ (t : ℕ). t * 2 + f (suc a % 2) (b % 2)) (digits-suc n (suc a / 2) (b / 2) (omega arith))

  digits-add : (k n a b : ℕ) → a ≤ n → digits z f (k + n) a b ≡ digits z f n a b
  digits-add zero n a b h = ap (λ (m : ℕ). digits z f m a b) (omega arith)
  digits-add (suc k) n a b h =
      let e : suc k + n ≡ suc (k + n) = omega arith in
      ap (λ (m : ℕ). digits z f m a b) e
      ∙ digits-suc (k + n) a b (omega arith)
      ∙ digits-add k n a b h

  pub bitwise_half :
      (a b : ℕ)
      → bitwise z f (suc a) b ≡ bitwise z f (suc a / 2) (b / 2) * 2 + f (suc a % 2) (b % 2)
  bitwise_half a b =
      ap (λ (t : ℕ). t * 2 + f (suc a % 2) (b % 2))
        (ap (λ (m : ℕ). digits z f m (suc a / 2) (b / 2)) (omega arith)
          ∙ digits-add (a - suc a / 2) (suc a / 2) (suc a / 2) (b / 2) (omega arith))

pub bit_and_half : (a b : ℕ) → bit_and a b ≡ bit_and (a / 2) (b / 2) * 2 + min (a % 2) (b % 2)
bit_and_half zero b = simp bit_and-bitwise (omega arith)
bit_and_half (suc a) b = simp bit_and-bitwise (bitwise_half (λ b. 0) min a b)

pub bit_or_half : (a b : ℕ) → bit_or a b ≡ bit_or (a / 2) (b / 2) * 2 + max (a % 2) (b % 2)
bit_or_half zero b = simp bit_or-bitwise (omega arith)
bit_or_half (suc a) b = simp bit_or-bitwise (bitwise_half (λ b. b) max a b)

pub bit_or_zero-left : (b : ℕ) → bit_or 0 b ≡ b
bit_or_zero-left b = bit_or-bitwise 0 b

pub bit_and_zero-left : (b : ℕ) → bit_and 0 b ≡ 0
bit_and_zero-left b = bit_and-bitwise 0 b

-- A count of halvings bounds the recursion of the laws below.
bit_or_zero_below : (n a : ℕ) → a ≤ n → bit_or a 0 ≡ a
bit_or_zero_below n zero h = refl
bit_or_zero_below zero (suc a) h = absurd (omega arith)
bit_or_zero_below (suc n) (suc a) h =
    omega (arith, bit_or_half (suc a) 0, bit_or_zero_below n (suc a / 2) (omega arith))

pub bit_or_zero-right : (a : ℕ) → bit_or a 0 ≡ a
bit_or_zero-right a = bit_or_zero_below a a (omega arith)

bit_and_zero_below : (n a : ℕ) → a ≤ n → bit_and a 0 ≡ 0
bit_and_zero_below n zero h = refl
bit_and_zero_below zero (suc a) h = absurd (omega arith)
bit_and_zero_below (suc n) (suc a) h =
    omega (arith, bit_and_half (suc a) 0, bit_and_zero_below n (suc a / 2) (omega arith))

pub bit_and_zero-right : (a : ℕ) → bit_and a 0 ≡ 0
bit_and_zero-right a = bit_and_zero_below a a (omega arith)

-- `(q << k) | r`, where `r` fits below `q`.
pub or_fields : (k q r : ℕ) → r < 2 ^ k → bit_or (q * 2 ^ k) r ≡ q * 2 ^ k + r
or_fields zero q r h = ground (arith, bit_or_zero-right (q * 1))
or_fields (suc k) q r h =
    let wide : q * 2 ^ suc k ≡ q * 2 ^ k * 2 = ap (λ (t : ℕ). q * t) (pow-suc 2 k) ∙ omega arith in
    let half : q * 2 ^ suc k / 2 ≡ q * 2 ^ k = omega (arith, wide) in
    omega (
      arith,
      bit_or_half (q * 2 ^ suc k) r,
      wide,
      pow-suc 2 k,
      ap (λ (t : ℕ). bit_or t (r / 2)) half,
      or_fields k q (r / 2) (omega (arith, pow-suc 2 k)),
    )

-- k ones.
abbrev pub ones : ℕ → ℕ
ones zero = 0
ones (suc k) = ones k * 2 + 1

pub mod_double : (a m : ℕ) → 0 < m → a / 2 % m * 2 + a % 2 ≡ a % (m * 2)
mod_double a m h =
    let r : ℕ = a / 2 % m * 2 + a % 2 in
    let whole : a ≡ r + a / 2 / m * (m * 2) = omega (arith, div-add-mod' (a / 2) m) in
    sym (
      ap (λ (t : ℕ). t % (m * 2)) whole
      ∙ add-mul-mod_self_right r (a / 2 / m) (m * 2)
      ∙ mod-eq_of_lt (omega (arith, mod-lt (a / 2) h)))

pub and_ones : (k a : ℕ) → bit_and a (ones k) ≡ a % 2 ^ k
and_ones zero a = bit_and_zero-right a ∙ omega arith
and_ones (suc k) a =
    bit_and_half a (ones k * 2 + 1)
    ∙ omega (
      arith,
      ap (bit_and (a / 2)) (let e : (ones k * 2 + 1) / 2 ≡ ones k = omega arith in e),
      and_ones k (a / 2),
      mod_double a (2 ^ k) (one-le-pow k 2 (omega arith)),
      ap (λ (t : ℕ). a % t) (pow-suc 2 k),
    )

-- The fields in the other order, `r | (q << k)`.
pub or_fields_swapped : (k q r : ℕ) → r < 2 ^ k → bit_or r (q * 2 ^ k) ≡ q * 2 ^ k + r
or_fields_swapped zero q zero h = bit_or_zero-left (q * 1) ∙ omega arith
or_fields_swapped zero q (suc r) h = absurd (omega arith)
or_fields_swapped (suc k) q r h =
    let wide : q * 2 ^ suc k ≡ q * 2 ^ k * 2 = ap (λ (t : ℕ). q * t) (pow-suc 2 k) ∙ omega arith in
    let half : q * 2 ^ suc k / 2 ≡ q * 2 ^ k = omega (arith, wide) in
    omega (
      arith,
      bit_or_half r (q * 2 ^ suc k),
      wide,
      pow-suc 2 k,
      ap (bit_or (r / 2)) half,
      or_fields_swapped k q (r / 2) (omega (arith, pow-suc 2 k)),
    )

-- Two functions compared at every argument below a bound.
pub equal_below : (ℕ → ℕ) → (ℕ → ℕ) → ℕ → Bool
equal_below f g zero = true
equal_below f g (suc n) = (f n == g n) && equal_below f g n

equal_below_sound : (f g : ℕ → ℕ) (n x : ℕ) → equal_below f g n ≡ true → x < n → f x ≡ g x
unfolding equal_below
equal_below_sound f g zero x h lt = absurd (omega arith)
equal_below_sound f g (suc n) x h lt = ground (arith, equal_below_sound f g n x)

-- The tests of the top bits of one byte, by its 256 values.
pub and_80 : (b : ℕ) → b < 2 ^ 8 → bit_and b 0x80 ≡ b / 128 * 128
unfolding equal_below
and_80 b h = equal_below_sound (λ b. bit_and b 0x80) (λ b. b / 128 * 128) 256 b refl h

pub and_e0 : (b : ℕ) → b < 2 ^ 8 → bit_and b 0xE0 ≡ b / 32 * 32
unfolding equal_below
and_e0 b h = equal_below_sound (λ b. bit_and b 0xE0) (λ b. b / 32 * 32) 256 b refl h

pub and_4 : (b : ℕ) → b < 2 ^ 8 → bit_and b 4 ≡ b / 4 % 2 * 4
unfolding equal_below
and_4 b h = equal_below_sound (λ b. bit_and b 4) (λ b. b / 4 % 2 * 4) 256 b refl h
