-- ===== src/Allocator/Examples.antt =====
-- A concrete bit set: tests of its operations, and the theorems at inputs that meet their conditions.
use siamese.Prelude.{◌≡◌, refl, arith, true, ◌==◌, if◌then◌else◌}
use siamese.Allocator.BitSet.{
  CustomBitSet, check, set_range, find_first_clear, find_first_set, range_popcount, count_bits,
  count_words, lowest, scan_set,
}
use siamese.Allocator.BitSet.Words.{IsWords}
use siamese.Allocator.BitSet.Ranges.{check-set_range}
use siamese.Allocator.BitSet.Search.{
  search, found_or, unset, find_first_clear-eq-search, find_first_set-eq-search,
}
use siamese.Allocator.BitSet.Count.{tally, range_popcount-eq-tally}

-- The bits 4 to 7 and 64.
abbrev sample : CustomBitSet
sample i = if i == 0 then 0xF0 else if i == 1 then 1 else 0

sample-IsWords : IsWords sample
sample-IsWords i = ground arith

find_clear_test : find_first_clear 128 sample 4 ≡ 8
unfolding find_first_clear lowest
find_clear_test = refl

find_set_test : find_first_set sample 8 128 ≡ 64
unfolding find_first_set scan_set lowest
find_set_test = refl

-- The bit found lies behind the end of the range, in the same word.
find_set_beyond_test : find_first_set sample 0 2 ≡ 4
unfolding find_first_set lowest
find_set_beyond_test = refl

popcount_test : range_popcount sample 5 65 ≡ 4
unfolding range_popcount count_words count_bits
popcount_test = refl

check-set_range_example : check (set_range sample 60 200) 130 ≡ true
check-set_range_example = check-set_range sample 60 200 130

find_first_clear-eq-search_example :
    find_first_clear 128 sample 4 ≡ found_or (search (unset sample) 4 124) 128
find_first_clear-eq-search_example =
    find_first_clear-eq-search sample sample-IsWords 128 4 refl (omega arith)

find_first_set-eq-search_example :
    find_first_set sample 8 100 ≡ found_or (search (check sample) 8 120) 100
find_first_set-eq-search_example =
    find_first_set-eq-search sample sample-IsWords 8 100 (omega arith)

range_popcount-eq-tally_example : range_popcount sample 5 65 ≡ tally (check sample) 5 60
range_popcount-eq-tally_example = range_popcount-eq-tally sample sample-IsWords 5 65
