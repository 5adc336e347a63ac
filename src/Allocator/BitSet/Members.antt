-- ===== src/Allocator/BitSet/Members.antt =====
-- Setting, clearing and testing one bit, and all of them.
use siamese.Prelude.{ℕ, zero, suc, ◌+◌, ◌/◌, ◌%◌, ◌^◌, ◌<◌, bit_and, bit_or}
use siamese.Prelude.{◌≡◌, sym, ap, ◌∙◌, arith}
use siamese.Prelude.{Bool, true, false, ltb, leb, ◌==◌, if◌then◌else◌, u64, ◌<<<◌}
use siamese.Prelude.Digits.{bit, bit-le-one, bit-bit_or, bit-bit_and, bit-mask, bit-zero}
use native.Mathlib.Decide.{ℕ_discrete}
use siamese.Prelude.Memory.{store}
use siamese.Allocator.BitSet.{
  CustomBitSet, all_ones, complement, check, set, clear, fill, set_all, clear_all, word_count,
}
use siamese.Allocator.BitSet.Words.{single, bit-complement, check-eq-bit}

-- What a word reads as after a masked update of another word or of itself.
module _ (words : CustomBitSet) (a mask j : ℕ) where
  word_hit : (v : ℕ) → j / 64 ≡ a → check (store words a v) j ≡ (bit v (j % 64) == 1)
  word_hit v e =
      let t : (j / 64 == a) ≡ true = ground arith in
      check-eq-bit (store words a v) j
      ∙ ap (λ (c : Bool). bit (if c then v else words (j / 64)) (j % 64) == 1) t

  word_miss : (v : ℕ) → (j / 64 == a) ≡ false → check (store words a v) j ≡ check words j
  word_miss v t =
      check-eq-bit (store words a v) j
      ∙ ap (λ (c : Bool). bit (if c then v else words (j / 64)) (j % 64) == 1) t
      ∙ sym (check-eq-bit words j)

  pub check-or : check (store words a (bit_or (words a) mask)) j ≡ (
      if j / 64 == a then if bit mask (j % 64) == 1 then true else check words j else check words j)
  check-or = elim (ℕ_discrete (j / 64) a) [
    | yes e ↦
        word_hit (bit_or (words a) mask) e
        ∙ ground (
          arith,
          bit-bit_or (j % 64) (words a) mask,
          check-eq-bit words j,
          ap (λ (i : ℕ). bit (words i) (j % 64)) e,
          bit-le-one (j % 64) (words a),
          bit-le-one (j % 64) mask,
        )
    | no h ↦
        let t : (j / 64 == a) ≡ false = ground arith in
        word_miss (bit_or (words a) mask) t ∙ ground arith
  ]

  pub check-and :
      mask < 2 ^ 64
      → check (store words a (bit_and (words a) (complement mask))) j ≡ (
          if j / 64 == a
          then if bit mask (j % 64) == 1 then false else check words j
          else check words j)
  check-and k = elim (ℕ_discrete (j / 64) a) [
    | yes e ↦
        word_hit (bit_and (words a) (complement mask)) e
        ∙ ground (
          arith,
          bit-bit_and (j % 64) (words a) (complement mask),
          bit-complement (j % 64) mask,
          check-eq-bit words j,
          ap (λ (i : ℕ). bit (words i) (j % 64)) e,
          bit-le-one (j % 64) (words a),
          bit-le-one (j % 64) mask,
        )
    | no h ↦
        let t : (j / 64 == a) ≡ false = ground arith in
        word_miss (bit_and (words a) (complement mask)) t ∙ ground arith
  ]

-- Set adds its bit to the set, and changes no other.
pub check-set :
    (words : CustomBitSet) (b j : ℕ)
    → check (set words b) j ≡ (if j == b then true else check words j)
unfolding set
check-set words b j =
    check-or words (b / 64) (u64 (1 <<< (b % 64))) j ∙ ground (arith, single (b % 64) (j % 64))

-- Clear removes its bit from the set, and changes no other.
pub check-clear :
    (words : CustomBitSet) (b j : ℕ)
    → check (clear words b) j ≡ (if j == b then false else check words j)
unfolding clear
check-clear words b j =
    check-and words (b / 64) (u64 (1 <<< (b % 64))) j (omega arith)
    ∙ ground (arith, single (b % 64) (j % 64))

-- A fill replaces whole words.
pub check-fill :
    (words : CustomBitSet) (v i n j : ℕ)
    → check (fill words v i n) j ≡ (
        if leb i (j / 64)
        then if ltb (j / 64) (i + n) then bit v (j % 64) == 1 else check words j
        else check words j)
unfolding fill
check-fill words v i zero j = ground arith
check-fill words v i (suc n) j =
    check-fill (store words i v) v (suc i) n j ∙ elim (ℕ_discrete (j / 64) i) [
      | yes e ↦ ground (arith, word_hit words i 0 j v e)
      | no h ↦
          let t : (j / 64 == i) ≡ false = ground arith in ground (arith, word_miss words i 0 j v t)
    ]

-- SetAll and ClearAll reach every bit of the set.
pub check-set_all :
    (valid_bits : ℕ) (words : CustomBitSet) (j : ℕ)
    → j < valid_bits
    → check (set_all valid_bits words) j ≡ true
unfolding set_all
check-set_all n words j h =
    check-fill words all_ones 0 (word_count n) j ∙ ground (arith, bit-mask 64 (j % 64))

pub check-clear_all :
    (valid_bits : ℕ) (words : CustomBitSet) (j : ℕ)
    → j < valid_bits
    → check (clear_all valid_bits words) j ≡ false
unfolding clear_all
check-clear_all n words j h =
    check-fill words 0 0 (word_count n) j ∙ ground (arith, bit-zero (j % 64))
