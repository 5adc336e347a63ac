-- ===== src/Allocator/BitSet/Ranges.antt =====
-- SetRange and ClearRange, against the set that `check` reads.
use siamese.Prelude.{ℕ, ◌+◌, ◌-◌, ◌*◌, ◌/◌, ◌%◌, ◌<◌, bit_and, bit_or}
use siamese.Prelude.{◌≡◌, ◌∙◌, arith}
use siamese.Prelude.{Bool, true, false, ltb, leb, ◌==◌, if_cases, if◌then◌else◌}
use siamese.Prelude.Memory.{store}
use siamese.Prelude.Digits.{bit-mask, bit-zero}
use siamese.Allocator.BitSet.{
  CustomBitSet, all_ones, complement, check, fill, inner_mask, upper_mask, lower_mask, set_range,
  clear_range,
}
use siamese.Allocator.BitSet.Words.{bit-inner, bit-upper, bit-lower, lower_bound}
use siamese.Allocator.BitSet.Members.{check-or, check-and, check-fill}

-- The set with the bits of a range replaced.
abbrev pub replaced : CustomBitSet → ℕ → ℕ → Bool → ℕ → Bool
replaced words bit_start bit_end b j =
    if leb bit_start j then if ltb j bit_end then b else check words j else check words j

module _ (words : CustomBitSet) (bit_start bit_end j : ℕ) where
  set_inner :
      bit_start < bit_end
      → bit_end / 64 ≡ bit_start / 64
      → check
          (store words
            (bit_start / 64)
            (bit_or (words (bit_start / 64)) (inner_mask (bit_start % 64) (bit_end % 64))))
          j
        ≡ replaced words bit_start bit_end true j
  set_inner h e =
      check-or words (bit_start / 64) (inner_mask (bit_start % 64) (bit_end % 64)) j
      ∙ ground
          (arith, bit-inner (bit_start % 64) (bit_end % 64) (j % 64) (omega arith) (omega arith))

  clear_inner :
      bit_start < bit_end
      → bit_end / 64 ≡ bit_start / 64
      → check
          (store words (bit_start / 64) (
            bit_and
              (words (bit_start / 64))
              (complement (inner_mask (bit_start % 64) (bit_end % 64)))))
          j
        ≡ replaced words bit_start bit_end false j
  clear_inner h e =
      check-and words (bit_start / 64) (inner_mask (bit_start % 64) (bit_end % 64)) j (omega arith)
      ∙ ground
          (arith, bit-inner (bit_start % 64) (bit_end % 64) (j % 64) (omega arith) (omega arith))

  abbrev set_begun : CustomBitSet
  set_begun =
      store words (bit_start / 64) (bit_or (words (bit_start / 64)) (upper_mask (bit_start % 64)))

  abbrev clear_begun : CustomBitSet
  clear_begun =
      store words (bit_start / 64)
        (bit_and (words (bit_start / 64)) (complement (upper_mask (bit_start % 64))))

  -- The first word and the full words after it.
  set_filled :
      bit_start / 64 < bit_end / 64
      → check (fill set_begun all_ones (bit_start / 64 + 1) (bit_end / 64 - (bit_start / 64 + 1))) j
        ≡ replaced words bit_start (bit_end / 64 * 64) true j
  set_filled h =
      check-fill set_begun all_ones (bit_start / 64 + 1) (bit_end / 64 - (bit_start / 64 + 1)) j
      ∙ ground (
        arith,
        bit-mask 64 (j % 64),
        check-or words (bit_start / 64) (upper_mask (bit_start % 64)) j,
        bit-upper (bit_start % 64) (j % 64) (omega arith),
      )

  clear_filled :
      bit_start / 64 < bit_end / 64
      → check (fill clear_begun 0 (bit_start / 64 + 1) (bit_end / 64 - (bit_start / 64 + 1))) j
        ≡ replaced words bit_start (bit_end / 64 * 64) false j
  clear_filled h =
      check-fill clear_begun 0 (bit_start / 64 + 1) (bit_end / 64 - (bit_start / 64 + 1)) j
      ∙ ground (
        arith,
        bit-zero (j % 64),
        check-and words (bit_start / 64) (upper_mask (bit_start % 64)) j (omega arith),
        bit-upper (bit_start % 64) (j % 64) (omega arith),
      )

  abbrev set_whole : CustomBitSet
  set_whole = fill set_begun all_ones (bit_start / 64 + 1) (bit_end / 64 - (bit_start / 64 + 1))

  abbrev clear_whole : CustomBitSet
  clear_whole = fill clear_begun 0 (bit_start / 64 + 1) (bit_end / 64 - (bit_start / 64 + 1))

  -- The first few bits of the last word.
  set_last :
      bit_start / 64 < bit_end / 64
      → check
          (store set_whole
            (bit_end / 64)
            (bit_or (set_whole (bit_end / 64)) (lower_mask (bit_end - bit_end / 64 * 64))))
          j
        ≡ replaced words bit_start bit_end true j
  set_last h =
      check-or set_whole (bit_end / 64) (lower_mask (bit_end - bit_end / 64 * 64)) j
      ∙ ground (arith, set_filled h, bit-lower (bit_end - bit_end / 64 * 64) (j % 64))

  clear_last :
      bit_start / 64 < bit_end / 64
      → check
          (store clear_whole (bit_end / 64) (
            bit_and
              (clear_whole (bit_end / 64))
              (complement (lower_mask (bit_end - bit_end / 64 * 64)))))
          j
        ≡ replaced words bit_start bit_end false j
  clear_last h =
      check-and clear_whole (bit_end / 64) (lower_mask (bit_end - bit_end / 64 * 64)) j
        (lower_bound (bit_end - bit_end / 64 * 64) (omega arith))
      ∙ ground (arith, clear_filled h, bit-lower (bit_end - bit_end / 64 * 64) (j % 64))

  -- After SetRange the bits of the range are set, and every other bit is as it was.
  pub check-set_range :
      check (set_range words bit_start bit_end) j ≡ replaced words bit_start bit_end true j
  unfolding set_range
  check-set_range =
      let P : CustomBitSet → Type 0 = λ w. check w j ≡ replaced words bit_start bit_end true j in
      if_cases P (leb bit_end bit_start) (λ t. ground arith)
        (λ t.
          if_cases P (bit_end / 64 == bit_start / 64) (λ e. set_inner (ground arith) (ground arith))
            (λ e.
              if_cases P (ltb 0 (bit_end - bit_end / 64 * 64)) (λ r. set_last (ground arith))
                (λ r. set_filled (ground arith) ∙ ground arith)))

  -- After ClearRange the bits of the range are clear, and every other bit is as it was.
  pub check-clear_range :
      check (clear_range words bit_start bit_end) j ≡ replaced words bit_start bit_end false j
  unfolding clear_range
  check-clear_range =
      let P : CustomBitSet → Type 0 = λ w. check w j ≡ replaced words bit_start bit_end false j in
      if_cases P (leb bit_end bit_start) (λ t. ground arith)
        (λ t.
          if_cases P (bit_end / 64 == bit_start / 64)
            (λ e. clear_inner (ground arith) (ground arith))
            (λ e.
              if_cases P (ltb 0 (bit_end - bit_end / 64 * 64)) (λ r. clear_last (ground arith))
                (λ r. clear_filled (ground arith) ∙ ground arith)))
