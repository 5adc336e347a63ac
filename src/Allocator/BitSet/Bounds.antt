-- ===== src/Allocator/BitSet/Bounds.antt =====
-- The words stay 64 bits wide, whatever operation runs.
use siamese.Prelude.{ℕ, zero, suc, ◌+◌, ◌-◌, ◌*◌, ◌/◌, ◌%◌, ◌^◌, ◌<◌, bit_and, bit_or}
use siamese.Prelude.{arith, leb, ltb, ◌==◌, if_cases, u64, ◌<<<◌}
use siamese.Prelude.Memory.{store}
use siamese.Allocator.BitSet.{
  CustomBitSet, all_ones, complement, fill, inner_mask, upper_mask, lower_mask, set, clear, set_all,
  clear_all, set_range, clear_range, word_count,
}
use siamese.Allocator.BitSet.Words.{IsWords, or_bound, and_bound, lower_bound}

store-IsWords :
    (words : CustomBitSet) → IsWords words → (a v : ℕ) → v < 2 ^ 64 → IsWords (store words a v)
store-IsWords words valid a v h i = ground (arith, valid i)

or-IsWords :
    (words : CustomBitSet)
    → IsWords words
    → (a mask : ℕ) → mask < 2 ^ 64
    → IsWords (store words a (bit_or (words a) mask))
or-IsWords words valid a mask h =
    store-IsWords words valid a (bit_or (words a) mask) (or_bound 64 (words a) mask (valid a) h)

and-IsWords :
    (words : CustomBitSet)
    → IsWords words
    → (a mask : ℕ) → IsWords (store words a (bit_and (words a) mask))
and-IsWords words valid a mask =
    store-IsWords words valid a (bit_and (words a) mask) (and_bound 64 (words a) mask (valid a))

fill-IsWords :
    (words : CustomBitSet) → IsWords words → (v i n : ℕ) → v < 2 ^ 64 → IsWords (fill words v i n)
unfolding fill
fill-IsWords words valid v i zero h = valid
fill-IsWords words valid v i (suc n) h =
    fill-IsWords (store words i v) (store-IsWords words valid i v h) v (suc i) n h

module _ (words : CustomBitSet) (valid : IsWords words) where
  set-IsWords : (b : ℕ) → IsWords (set words b)
  unfolding set
  set-IsWords b = or-IsWords words valid (b / 64) (u64 (1 <<< (b % 64))) (omega arith)

  clear-IsWords : (b : ℕ) → IsWords (clear words b)
  unfolding clear
  clear-IsWords b = and-IsWords words valid (b / 64) (complement (u64 (1 <<< (b % 64))))

  pub set_range-IsWords : (a e : ℕ) → IsWords (set_range words a e)
  unfolding set_range
  set_range-IsWords a e =
      let begun = store words (a / 64) (bit_or (words (a / 64)) (upper_mask (a % 64))) in
      let begun-ok : IsWords begun =
        or-IsWords words valid (a / 64) (upper_mask (a % 64)) (omega arith) in
      let whole = fill begun all_ones (a / 64 + 1) (e / 64 - (a / 64 + 1)) in
      let whole-ok : IsWords whole =
        fill-IsWords begun begun-ok all_ones (a / 64 + 1) (e / 64 - (a / 64 + 1)) (omega arith) in
      if_cases IsWords (leb e a) (λ t. valid)
        (λ t.
          if_cases IsWords (e / 64 == a / 64)
            (λ s. or-IsWords words valid (a / 64) (inner_mask (a % 64) (e % 64)) (omega arith))
            (λ s.
              if_cases IsWords (ltb 0 (e - e / 64 * 64))
                (λ l.
                  or-IsWords whole whole-ok (e / 64) (lower_mask (e - e / 64 * 64))
                    (lower_bound (e - e / 64 * 64) (omega arith)))
                (λ l. whole-ok)))

  pub clear_range-IsWords : (a e : ℕ) → IsWords (clear_range words a e)
  unfolding clear_range
  clear_range-IsWords a e =
      let begun =
        store words (a / 64) (bit_and (words (a / 64)) (complement (upper_mask (a % 64)))) in
      let begun-ok : IsWords begun =
        and-IsWords words valid (a / 64) (complement (upper_mask (a % 64))) in
      let whole = fill begun 0 (a / 64 + 1) (e / 64 - (a / 64 + 1)) in
      let whole-ok : IsWords whole =
        fill-IsWords begun begun-ok 0 (a / 64 + 1) (e / 64 - (a / 64 + 1)) (omega arith) in
      if_cases IsWords (leb e a) (λ t. valid)
        (λ t.
          if_cases IsWords (e / 64 == a / 64)
            (λ s. and-IsWords words valid (a / 64) (complement (inner_mask (a % 64) (e % 64))))
            (λ s.
              if_cases IsWords (ltb 0 (e - e / 64 * 64))
                (λ l.
                  and-IsWords whole whole-ok (e / 64) (complement (lower_mask (e - e / 64 * 64))))
                (λ l. whole-ok)))

  pub all-IsWords : (n : ℕ) → IsWords (set_all n words) × IsWords (clear_all n words)
  unfolding set_all clear_all
  all-IsWords n = (
    fill-IsWords words valid all_ones 0 (word_count n) (omega arith),
    fill-IsWords words valid 0 0 (word_count n) (omega arith),
  )

  -- From words of 64 bits every operation of the set leaves words of 64 bits.
  pub operations-IsWords :
      (n b e : ℕ)
      → IsWords (set words b)
        × IsWords (clear words b)
        × IsWords (set_range words b e)
        × IsWords (clear_range words b e)
        × IsWords (set_all n words)
        × IsWords (clear_all n words)
  operations-IsWords n b e = (
    set-IsWords b,
    clear-IsWords b,
    set_range-IsWords b e,
    clear_range-IsWords b e,
    (all-IsWords n).0,
    (all-IsWords n).1,
  )
