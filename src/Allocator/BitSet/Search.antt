-- ===== src/Allocator/BitSet/Search.antt =====
-- FindFirstClear and FindFirstSet against a search that tests one bit after the other.
use siamese.Prelude.{ℕ, zero, suc, ◌+◌, ◌-◌, ◌*◌, ◌/◌, ◌%◌, ◌^◌, ◌≤◌, ◌<◌, bit_and}
use siamese.Prelude.{◌≡◌, refl, sym, ap, ◌∙◌, arith, Option, none, some}
use siamese.Prelude.{Bool, not, ◌==◌, if◌then◌else◌, if_cases, ◌>>>◌}
use siamese.Prelude.Digits.{bit, bit-le-one, bit-shr}
use siamese.Prelude.Bits.{and_ones}
use native.Mathlib.Nat.{pow-suc}
use siamese.Allocator.BitSet.{
  CustomBitSet, complement, check, lowest, offset, trailing_zeros64, scan_clear, scan_set,
  find_first_clear, find_first_set, word_count,
}
use siamese.Allocator.BitSet.Words.{IsWords, check_at, shift_bound, bit-complement}

-- The first of n places from i on that pass the test.
unfoldable pub search : (ℕ → Bool) → ℕ → ℕ → Option ℕ
search test i zero = none
search test i (suc n) = let rest = search test (suc i) n in if test i then some i else rest

abbrev pub found_or : Option ℕ → ℕ → ℕ
found_or none d = d
found_or (some r) d = r

module _ (test : ℕ → Bool) where
  search-add :
      (n i k d : ℕ)
      → found_or (search test i (n + k)) d
        ≡ found_or (search test i n) (found_or (search test (i + n) k) d)
  unfolding search
  search-add zero i k d =
      let e : zero + k ≡ k = omega arith in
      let f : i ≡ i + zero = omega arith in
      ap (λ (x : ℕ). found_or (search test i x) d) e
      ∙ ap (λ (x : ℕ). found_or (search test x k) d) f
  search-add (suc n) i k d =
      let e : suc n + k ≡ suc (n + k) = omega arith in
      let f : suc i + n ≡ i + suc n = omega arith in
      let step = search-add n (suc i) k d in
      ap (λ (x : ℕ). found_or (search test i x) d) e
      ∙ if_cases
          (λ o.
            found_or o d
            ≡ found_or (if test i then some i else search test (suc i) n)
                (found_or (search test (i + suc n) k) d))
          (test i)
          (λ t.
            ap
              (λ (c : Bool).
                found_or (if c then some i else search test (suc i) n)
                  (found_or (search test (i + suc n) k) d))
              (sym t))
          (λ t.
            step
            ∙ ap (λ (x : ℕ). found_or (search test (suc i) n) (found_or (search test x k) d)) f
            ∙ ap
                (λ (c : Bool).
                  found_or (if c then some i else search test (suc i) n)
                    (found_or (search test (i + suc n) k) d))
                (sym t))

  -- In the digits of one word.
  search_word :
      (k c w d : ℕ)
      → w < 2 ^ k
      → ((i : ℕ) → i < k → test (c + i) ≡ (bit w i == 1))
      → found_or (search test c k) d ≡ (if w == 0 then d else c + lowest k w)
  unfolding search lowest bit
  search_word zero c w d h same = ground arith
  search_word (suc k) c w d h same =
      let e : c + 0 ≡ c = omega arith in
      let here : test c ≡ (w % 2 == 1) = ap test (sym e) ∙ same 0 (omega arith) in
      let next : (i : ℕ) → i < k → test (suc c + i) ≡ (bit (w / 2) i == 1) = λ i hi.
        let f : suc c + i ≡ c + suc i = omega arith in ap test f ∙ same (suc i) (omega arith) in
      let step = search_word k (suc c) (w / 2) d (omega (arith, pow-suc 2 k)) next in
      ap (λ (b : Bool). found_or (if b then some c else search test (suc c) k) d) here
      ∙ if_cases (λ (o : Option ℕ). found_or o d ≡ (if w == 0 then d else c + lowest (suc k) w))
          (w % 2 == 1) (λ t. ground arith) (λ t. step ∙ ground arith)

-- The width does not matter to a word that fits and is not 0.
lowest-add : (k m w : ℕ) → w < 2 ^ k → 0 < w → lowest (k + m) w ≡ lowest k w
unfolding lowest
lowest-add zero m w h p = absurd (omega arith)
lowest-add (suc k) m w h p =
    let e : suc k + m ≡ suc (k + m) = omega arith in
    ap (λ (x : ℕ). lowest x w) e ∙ ground (arith, lowest-add k m (w / 2), pow-suc 2 k)

lowest-eq-offset : (k w : ℕ) → k ≤ 64 → w < 2 ^ (64 - k) → 0 < w → lowest (64 - k) w ≡ offset w
lowest-eq-offset k w hk h p =
    let e : 64 - k + k ≡ 64 = omega arith in
    let wide : lowest (64 - k) w ≡ lowest 64 w =
      sym (lowest-add (64 - k) k w h p) ∙ ap (λ (x : ℕ). lowest x w) e in
    wide
    ∙ if_cases (λ r. lowest 64 w ≡ r) (bit_and w 1 == 0) (λ t. refl)
        (λ t. unfold lowest in ground (arith, and_ones 1 w))

-- A test that reads the digits of words.
module _ (test : ℕ → Bool) (g : ℕ → ℕ) (wide : (i : ℕ) → g i < 2 ^ 64)
    (same : (i b : ℕ) → b < 64 → test (i * 64 + b) ≡ (bit (g i) b == 1)) where
  search_next :
      (i d : ℕ)
      → found_or (search test (i * 64) 64) d
        ≡ (if g i == 0 then d else i * 64 + trailing_zeros64 (g i))
  search_next i d = search_word test 64 (i * 64) (g i) d (wide i) (same i)

  search_first :
      (a d : ℕ)
      → found_or (search test a (64 - a % 64)) d
        ≡ (if g (a / 64) >>> (a % 64) == 0 then d else a + offset (g (a / 64) >>> (a % 64)))
  search_first a d =
      let k = a % 64 in
      let w = g (a / 64) >>> k in
      let e : k + (64 - k) ≡ 64 = omega arith in
      let h : w < 2 ^ (64 - k) =
        shift_bound k (64 - k) (g (a / 64))
          (omega (arith, wide (a / 64), ap (λ (x : ℕ). 2 ^ x) e)) in
      let reads : (i : ℕ) → i < 64 - k → test (a + i) ≡ (bit w i == 1) = λ i hi.
        let f : a + i ≡ a / 64 * 64 + (k + i) = omega arith in
        ap test f
        ∙ same (a / 64) (k + i) (omega arith)
        ∙ ap (λ (x : ℕ). x == 1) (sym (bit-shr k i (g (a / 64)))) in
      search_word test (64 - k) a w d h reads ∙ ground (arith, lowest-eq-offset k w (omega arith) h)

not_test : (x : ℕ) → x ≤ 1 → not (x == 1) ≡ (1 - x == 1)
not_test zero h = refl
not_test (suc zero) h = refl
not_test (suc (suc x)) h = absurd (omega arith)

abbrev pub unset : CustomBitSet → ℕ → Bool
unset words j = not (check words j)

unset_at :
    (words : CustomBitSet)
    → IsWords words
    → (i b : ℕ) → b < 64
    → unset words (i * 64 + b) ≡ (bit (complement (words i)) b == 1)
unset_at words valid i b h =
    ap not (check_at words i b h)
    ∙ not_test (bit (words i) b) (bit-le-one b (words i))
    ∙ ap (λ (x : ℕ). x == 1) (sym (bit-complement b (words i) (valid i) h))

module _ (words : CustomBitSet) (valid : IsWords words) where
  narrow : (i : ℕ) → complement (words i) < 2 ^ 64
  narrow i = omega arith

  scan_clear_lem :
      (vb n i : ℕ) → scan_clear words vb i n ≡ found_or (search (unset words) (i * 64) (n * 64)) vb
  unfolding scan_clear
  scan_clear_lem vb zero i = unfold search in refl
  scan_clear_lem vb (suc n) i =
      let e : suc n * 64 ≡ 64 + n * 64 = omega arith in
      let f : i * 64 + 64 ≡ suc i * 64 = omega arith in
      let rest : found_or (search (unset words) (i * 64 + 64) (n * 64)) vb
          ≡ scan_clear words vb (suc i) n =
        ap (λ (x : ℕ). found_or (search (unset words) x (n * 64)) vb) f
        ∙ sym (scan_clear_lem vb n (suc i)) in
      sym (
        ap (λ (x : ℕ). found_or (search (unset words) (i * 64) x) vb) e
        ∙ search-add (unset words) 64 (i * 64) (n * 64) vb
        ∙ ap (found_or (search (unset words) (i * 64) 64)) rest
        ∙ search_next (unset words) (λ i. complement (words i)) narrow (unset_at words valid) i
            (scan_clear words vb (suc i) n))

  scan_set_lem :
      (vb n i : ℕ) → scan_set words vb i n ≡ found_or (search (check words) (i * 64) (n * 64)) vb
  unfolding scan_set
  scan_set_lem vb zero i = unfold search in refl
  scan_set_lem vb (suc n) i =
      let e : suc n * 64 ≡ 64 + n * 64 = omega arith in
      let f : i * 64 + 64 ≡ suc i * 64 = omega arith in
      let rest : found_or (search (check words) (i * 64 + 64) (n * 64)) vb
          ≡ scan_set words vb (suc i) n =
        ap (λ (x : ℕ). found_or (search (check words) x (n * 64)) vb) f
        ∙ sym (scan_set_lem vb n (suc i)) in
      sym (
        ap (λ (x : ℕ). found_or (search (check words) (i * 64) x) vb) e
        ∙ search-add (check words) 64 (i * 64) (n * 64) vb
        ∙ ap (found_or (search (check words) (i * 64) 64)) rest
        ∙ search_next (check words) words valid (check_at words) i (scan_set words vb (suc i) n))

  -- On 64-bit words, in a set whose size is a multiple of 64 and from a start inside it,
  -- FindFirstClear finds what a search bit by bit for a clear bit finds, and the size of the set
  -- where there is none.
  pub find_first_clear-eq-search :
      (valid_bits a : ℕ)
      → valid_bits % 64 ≡ 0
      → a < valid_bits
      → find_first_clear valid_bits words a
        ≡ found_or (search (unset words) a (valid_bits - a)) valid_bits
  unfolding find_first_clear
  find_first_clear-eq-search vb a whole h =
      let n = word_count vb - (a / 64 + 1) in
      let e : vb - a ≡ 64 - a % 64 + n * 64 = omega arith in
      let f : a + (64 - a % 64) ≡ (a / 64 + 1) * 64 = omega arith in
      let rest : found_or (search (unset words) (a + (64 - a % 64)) (n * 64)) vb
          ≡ scan_clear words vb (a / 64 + 1) n =
        ap (λ (x : ℕ). found_or (search (unset words) x (n * 64)) vb) f
        ∙ sym (scan_clear_lem vb n (a / 64 + 1)) in
      sym (
        ap (λ (x : ℕ). found_or (search (unset words) a x) vb) e
        ∙ search-add (unset words) (64 - a % 64) a (n * 64) vb
        ∙ ap (found_or (search (unset words) a (64 - a % 64))) rest
        ∙ search_first (unset words) (λ i. complement (words i)) narrow (unset_at words valid) a
            (scan_clear words vb (a / 64 + 1) n))

  -- On 64-bit words and a range that is not empty, FindFirstSet finds what a search bit by bit
  -- for a set bit finds, where the search goes on to the end of the word that the range ends in;
  -- it returns the end of the range where there is none.
  pub find_first_set-eq-search :
      (a bit_end : ℕ)
      → a < bit_end
      → find_first_set words a bit_end
        ≡ found_or (search (check words) a (word_count bit_end * 64 - a)) bit_end
  unfolding find_first_set
  find_first_set-eq-search a vb h =
      let n = word_count vb - (a / 64 + 1) in
      let e : word_count vb * 64 - a ≡ 64 - a % 64 + n * 64 = omega arith in
      let f : a + (64 - a % 64) ≡ (a / 64 + 1) * 64 = omega arith in
      let rest : found_or (search (check words) (a + (64 - a % 64)) (n * 64)) vb
          ≡ scan_set words vb (a / 64 + 1) n =
        ap (λ (x : ℕ). found_or (search (check words) x (n * 64)) vb) f
        ∙ sym (scan_set_lem vb n (a / 64 + 1)) in
      sym (
        ap (λ (x : ℕ). found_or (search (check words) a x) vb) e
        ∙ search-add (check words) (64 - a % 64) a (n * 64) vb
        ∙ ap (found_or (search (check words) a (64 - a % 64))) rest
        ∙ search_first (check words) words valid (check_at words) a
            (scan_set words vb (a / 64 + 1) n))
