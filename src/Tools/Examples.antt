-- ===== src/Tools/Examples.antt =====
-- A running maximum and a generator of random numbers: tests, and the theorems at inputs that meet
-- their conditions.
use siamese.Prelude.{◌≡◌, ◌+◌, ◌/◌, ◌%◌, ◌^◌, refl, arith, bit_xor, u32, ◌>>>◌}
use siamese.Prelude.Digits.{bit}
use siamese.Tools.PcgRandom.{PcgRandom, rotated, next, seed}
use siamese.Tools.PcgRandom.Laws.{previous, previous-next, bit-next}
use siamese.Tools.WindowedMinMax.{
  Samples, max_compare, compare_values, update, insert, expire, reset, get_best, is_valid,
}
use siamese.Tools.WindowedMinMax.Laws.{IsUpdated, update-IsUpdated}

-- The maximum 9 of time 100, then 5 of time 120, then 3 of time 190.
abbrev samples : Samples
samples = record {
  first = record { value = 9; timestamp = 100 };
  second = record { value = 5; timestamp = 120 };
  third = record { value = 3; timestamp = 190 };
}

-- At time 205 the window of 100 has passed since the best sample: the second takes its place.
expired_test : get_best (update max_compare 1 205 100 samples) ≡ 5
unfolding update insert expire compare_values get_best is_valid
expired_test = refl

new_best_test : get_best (update max_compare 12 150 100 samples) ≡ 12
unfolding update reset compare_values get_best is_valid
new_best_test = refl

update-IsUpdated_example : IsUpdated max_compare 1 205 100 (update max_compare 1 205 100 samples)
unfolding compare_values
update-IsUpdated_example = update-IsUpdated max_compare 1 205 100 samples (refl, refl)

abbrev random : PcgRandom
random = record { state = 0x123456789ABCDEF0; inc = 7 }

seed_test : (seed 3 5).inc ≡ 7
unfolding seed next
seed_test = refl

rotated_test : rotated 0x80000001 4 ≡ 0x18000000
unfolding rotated
rotated_test = refl

previous-next_example : previous (next random).1 ≡ random
previous-next_example = previous-next random (omega arith) (omega arith)

bit-next_example :
    bit (next random).0 30
    ≡ bit
        (u32 (bit_xor (random.state >>> 18) random.state >>> 27))
        ((30 + random.state / 2 ^ 59) % 32)
bit-next_example = bit-next random 30 (omega arith) (omega arith)
