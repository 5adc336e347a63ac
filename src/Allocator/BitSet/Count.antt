-- ===== src/Allocator/BitSet/Count.antt =====
-- RangePopcount against a count that tests one bit after the other.
use siamese.Prelude.{ℕ, zero, suc, ◌+◌, ◌-◌, ◌*◌, ◌/◌, ◌%◌, ◌^◌, ◌≤◌, ◌<◌}
use siamese.Prelude.{◌≡◌, refl, sym, ap, ◌∙◌, arith}
use siamese.Prelude.{Bool, ltb, leb, ◌==◌, if◌then◌else◌, if_cases, u64, ◌>>>◌, ◌<<<◌}
use siamese.Prelude.Digits.{bit, bit-shr, double-half, double-even}
use siamese.Prelude.Bits.{mod_double}
use native.Mathlib.Nat.{pow-suc, one-le-pow}
use siamese.Allocator.BitSet.{
  CustomBitSet, check, count_bits, pop_count64, count_words, range_popcount,
}
use siamese.Allocator.BitSet.Words.{IsWords, check_at, shift_bound}

-- How many of n places from i on pass the test.
unfoldable pub tally : (ℕ → Bool) → ℕ → ℕ → ℕ
tally test i zero = 0
tally test i (suc n) = (if test i then 1 else 0) + tally test (suc i) n

module _ (test : ℕ → Bool) where
  tally_none : (i n : ℕ) → n ≡ 0 → tally test i n ≡ 0
  unfolding tally
  tally_none i n e = ap (tally test i) e

  pub tally-add : (n i k : ℕ) → tally test i (n + k) ≡ tally test i n + tally test (i + n) k
  unfolding tally
  tally-add zero i k =
      let e : zero + k ≡ k = omega arith in
      let f : i + zero ≡ i = omega arith in
      omega (arith, ap (tally test i) e, ap (λ (x : ℕ). tally test x k) f)
  tally-add (suc n) i k =
      let e : suc n + k ≡ suc (n + k) = omega arith in
      let f : i + suc n ≡ suc i + n = omega arith in
      omega (arith, ap (tally test i) e, ap (λ (x : ℕ). tally test x k) f, tally-add n (suc i) k)

  tally_word :
      (k c w : ℕ)
      → ((i : ℕ) → i < k → test (c + i) ≡ (bit w i == 1))
      → tally test c k ≡ count_bits k w
  unfolding tally count_bits bit
  tally_word zero c w same = refl
  tally_word (suc k) c w same =
      let e : c + 0 ≡ c = omega arith in
      let here : test c ≡ (w % 2 == 1) = ap test (sym e) ∙ same 0 (omega arith) in
      let next : (i : ℕ) → i < k → test (suc c + i) ≡ (bit (w / 2) i == 1) = λ i hi.
        let f : suc c + i ≡ c + suc i = omega arith in ap test f ∙ same (suc i) (omega arith) in
      ap (λ (b : Bool). (if b then 1 else 0) + tally test (suc c) k) here
      ∙ ground (arith, tally_word k (suc c) (w / 2) next)

count_bits_zero : (k : ℕ) → count_bits k 0 ≡ 0
unfolding count_bits
count_bits_zero zero = refl
count_bits_zero (suc k) = omega (arith, count_bits_zero k)

count_bits-add : (k m w : ℕ) → w < 2 ^ k → count_bits (k + m) w ≡ count_bits k w
unfolding count_bits
count_bits-add zero m w h =
    let e : zero + m ≡ m = omega arith in
    let z : w ≡ 0 = omega arith in
    ap (λ (x : ℕ). count_bits x w) e ∙ ap (count_bits m) z ∙ count_bits_zero m
count_bits-add (suc k) m w h =
    let e : suc k + m ≡ suc (k + m) = omega arith in
    ap (λ (x : ℕ). count_bits x w) e
    ∙ ap (λ (x : ℕ). w % 2 + x) (count_bits-add k m (w / 2) (omega (arith, pow-suc 2 k)))

-- Digits above the counted ones do not matter.
count_bits-mod : (k w : ℕ) → count_bits k (w % 2 ^ k) ≡ count_bits k w
unfolding count_bits
count_bits-mod zero w = refl
count_bits-mod (suc k) w =
    let x = w % 2 ^ suc k in
    let whole : x ≡ w / 2 % 2 ^ k * 2 + w % 2 =
      ap (λ (t : ℕ). w % t) (pow-suc 2 k)
      ∙ sym (mod_double w (2 ^ k) (one-le-pow k 2 (omega arith))) in
    let half : x / 2 ≡ w / 2 % 2 ^ k = omega (arith, whole) in
    omega (arith, whole, ap (count_bits k) half, count_bits-mod k (w / 2))

-- A shift to the top of a word of d + m digits leaves the m low ones to count.
count_bits-shl : (d m w : ℕ) → count_bits (d + m) (w * 2 ^ d % 2 ^ (d + m)) ≡ count_bits m w
unfolding count_bits
count_bits-shl zero m w =
    let e : zero + m ≡ m = omega arith in
    let f : w * 1 ≡ w = omega arith in
    ap (λ (x : ℕ). count_bits x (w * 1 % 2 ^ x)) e
    ∙ ap (λ (x : ℕ). count_bits m (x % 2 ^ m)) f
    ∙ count_bits-mod m w
count_bits-shl (suc d) m w =
    let y = w * 2 ^ suc d in
    let e : suc d + m ≡ suc (d + m) = omega arith in
    let x = y % 2 ^ suc (d + m) in
    let whole : x ≡ y / 2 % 2 ^ (d + m) * 2 + y % 2 =
      ap (λ (t : ℕ). y % t) (pow-suc 2 (d + m))
      ∙ sym (mod_double y (2 ^ (d + m)) (one-le-pow (d + m) 2 (omega arith))) in
    let half : x / 2 ≡ w * 2 ^ d % 2 ^ (d + m) =
      omega (arith, whole, ap (λ (t : ℕ). t % 2 ^ (d + m)) (double-half w d), double-even w d) in
    ap (λ (t : ℕ). count_bits t (y % 2 ^ t)) e
    ∙ omega (arith, whole, double-even w d, ap (count_bits (d + m)) half, count_bits-shl d m w)

pop_count-shl : (m w : ℕ) → m ≤ 64 → pop_count64 (u64 (w <<< (64 - m))) ≡ count_bits m w
pop_count-shl m w h =
    let e : 64 ≡ 64 - m + m = omega arith in
    ap (λ (x : ℕ). count_bits x (w * 2 ^ (64 - m) % 2 ^ x)) e ∙ count_bits-shl (64 - m) m w

module _ (words : CustomBitSet) (valid : IsWords words) where
  -- The first m bits from place a on, all in its word.
  tally_part :
      (a m : ℕ)
      → a % 64 + m ≤ 64
      → tally (check words) a m ≡ count_bits m (words (a / 64) >>> (a % 64))
  tally_part a m h = tally_word (check words) m a (words (a / 64) >>> (a % 64)) (λ i hi.
      let f : a + i ≡ a / 64 * 64 + (a % 64 + i) = omega arith in
      ap (check words) f
      ∙ check_at words (a / 64) (a % 64 + i) (omega arith)
      ∙ ap (λ (x : ℕ). x == 1) (sym (bit-shr (a % 64) i (words (a / 64)))))

  tally_first :
      (a : ℕ) → tally (check words) a (64 - a % 64) ≡ pop_count64 (words (a / 64) >>> (a % 64))
  tally_first a =
      let k = a % 64 in
      let e : k + (64 - k) ≡ 64 = omega arith in
      let f : 64 - k + k ≡ 64 = omega arith in
      let w = words (a / 64) >>> k in
      let h : w < 2 ^ (64 - k) =
        shift_bound k (64 - k) (words (a / 64))
          (omega (arith, valid (a / 64), ap (λ (x : ℕ). 2 ^ x) e)) in
      tally_part a (64 - k) (omega arith)
      ∙ sym (count_bits-add (64 - k) k w h)
      ∙ ap (λ (x : ℕ). count_bits x w) f

  tally_low : (i m : ℕ) → m ≤ 64 → tally (check words) (i * 64) m ≡ count_bits m (words i)
  tally_low i m h =
      tally_word (check words) m (i * 64) (words i) (λ b hb. check_at words i b (omega arith))

  tally_full : (n i : ℕ) → tally (check words) (i * 64) (n * 64) ≡ count_words words i n
  unfolding count_words
  tally_full zero i = unfold tally in refl
  tally_full (suc n) i =
      let e : suc n * 64 ≡ 64 + n * 64 = omega arith in
      let f : i * 64 + 64 ≡ suc i * 64 = omega arith in
      omega (
        arith,
        ap (tally (check words) (i * 64)) e,
        tally-add (check words) 64 (i * 64) (n * 64),
        ap (λ (x : ℕ). tally (check words) x (n * 64)) f,
        tally_full n (suc i),
        tally_low i 64 (omega arith),
      )

  -- The parts of a range that ends in a later word than it starts in.
  tally_split :
      (a e : ℕ)
      → a / 64 < e / 64
      → tally (check words) a (e - a)
        ≡ pop_count64 (words (a / 64) >>> (a % 64))
          + count_words words (a / 64 + 1) (e / 64 - (a / 64 + 1))
          + tally (check words) (e / 64 * 64) (e - e / 64 * 64)
  tally_split a e h =
      let first = 64 - a % 64 in
      let n = e / 64 - (a / 64 + 1) in
      let l = e - e / 64 * 64 in
      let p : e - a ≡ first + (n * 64 + l) = omega arith in
      let q : a + first ≡ (a / 64 + 1) * 64 = omega arith in
      let r : (a / 64 + 1) * 64 + n * 64 ≡ e / 64 * 64 = omega arith in
      omega (
        arith,
        ap (tally (check words) a) p,
        tally-add (check words) first a (n * 64 + l),
        ap (λ (x : ℕ). tally (check words) x (n * 64 + l)) q,
        tally-add (check words) (n * 64) ((a / 64 + 1) * 64) l,
        ap (λ (x : ℕ). tally (check words) x l) r,
        tally_first a,
        tally_full n (a / 64 + 1),
      )

  -- On 64-bit words RangePopcount is the number of set bits of the range, counted bit by bit.
  pub range_popcount-eq-tally : (a e : ℕ) → range_popcount words a e ≡ tally (check words) a (e - a)
  unfolding range_popcount
  range_popcount-eq-tally a e =
      let P : ℕ → Type 0 = λ r. r ≡ tally (check words) a (e - a) in
      if_cases P (leb e a)
        (λ t. let z : e - a ≡ 0 = ground arith in sym (tally_none (check words) a (e - a) z))
        (λ t.
          if_cases P (e / 64 == a / 64)
            (λ s.
              pop_count-shl (e - a) (words (a / 64) >>> (a % 64)) (ground arith)
              ∙ sym (tally_part a (e - a) (ground arith)))
            (λ s.
              let split = tally_split a e (ground arith) in
              if_cases P (ltb 0 (e - e / 64 * 64))
                (λ l. omega (
                  arith,
                  split,
                  pop_count-shl (e - e / 64 * 64) (words (e / 64)) (omega arith),
                  tally_low (e / 64) (e - e / 64 * 64) (omega arith),
                ))
                (λ l.
                  let z : e - e / 64 * 64 ≡ 0 = ground arith in
                  omega
                    (arith, split, tally_none (check words) (e / 64 * 64) (e - e / 64 * 64) z))))
