-- ===== src/Allocator/BitSet.antt =====
-- CustomBitSet of PacketAllocator.h, with its two intrinsics. The words are a function from a word's
-- index to its 64 bits; `kValidBits` is a parameter, a multiple of 64 in the code's one use of it.
pub mod Words
pub mod Members
pub mod Ranges
pub mod Search
pub mod Count
pub mod Bounds
use siamese.Prelude.{ℕ, zero, suc, ◌+◌, ◌-◌, ◌*◌, ◌/◌, ◌%◌, ◌^◌, bit_and, bit_or}
use siamese.Prelude.{Bool, true, not, ltb, leb, ◌==◌, if◌then◌else◌, u32, u64, ◌<<<◌, ◌>>>◌}
use siamese.Prelude.Memory.{store}

abbrev pub CustomBitSet : Type 0
CustomBitSet = ℕ → ℕ

abbrev pub all_ones : ℕ
all_ones = 2 ^ 64 - 1

-- `~w`.
abbrev pub complement : ℕ → ℕ
complement w = all_ones - w

-- The set digits among the k lowest ones.
unfoldable pub count_bits : ℕ → ℕ → ℕ
count_bits zero w = 0
count_bits (suc k) w = w % 2 + count_bits k (w / 2)

abbrev pub pop_count64 : ℕ → ℕ
pop_count64 w = count_bits 64 w

-- The place of the lowest set digit among the k lowest ones, or k.
unfoldable pub lowest : ℕ → ℕ → ℕ
lowest zero w = 0
lowest (suc k) w = if w % 2 == 1 then 0 else suc (lowest k (w / 2))

abbrev pub trailing_zeros64 : ℕ → ℕ
trailing_zeros64 w = lowest 64 w

-- `Words[i] = v` for n words from the first one on.
unfoldable pub fill : CustomBitSet → ℕ → ℕ → ℕ → CustomBitSet
fill words v i zero = words
fill words v i (suc n) = fill (store words i v) v (suc i) n

abbrev pub word_count : ℕ → ℕ
word_count valid_bits = (valid_bits + 64 - 1) / 64

unfoldable pub clear_all : ℕ → CustomBitSet → CustomBitSet
clear_all valid_bits words = fill words 0 0 (word_count valid_bits)

unfoldable pub set_all : ℕ → CustomBitSet → CustomBitSet
set_all valid_bits words = fill words all_ones 0 (word_count valid_bits)

unfoldable pub set : CustomBitSet → ℕ → CustomBitSet
set words bit = store words (bit / 64) (bit_or (words (bit / 64)) (u64 (1 <<< (bit % 64))))

unfoldable pub clear : CustomBitSet → ℕ → CustomBitSet
clear words bit =
    store words (bit / 64) (bit_and (words (bit / 64)) (complement (u64 (1 <<< (bit % 64)))))

unfoldable pub check : CustomBitSet → ℕ → Bool
check words bit = not (bit_and (words (bit / 64)) (u64 (1 <<< (bit % 64))) == 0)

-- The loop over the full words between the first and the last.
unfoldable pub count_words : CustomBitSet → ℕ → ℕ → ℕ
count_words words i zero = 0
count_words words i (suc n) = pop_count64 (words i) + count_words words (suc i) n

unfoldable pub range_popcount : CustomBitSet → ℕ → ℕ → ℕ
range_popcount words bit_start bit_end =
    if leb bit_end bit_start
    then 0
    else let word = words (bit_start / 64) >>> (bit_start % 64) in
      if bit_end / 64 == bit_start / 64
      then pop_count64 (u64 (word <<< (64 - (bit_end - bit_start))))
      else let count =
          pop_count64 word
          + count_words words (bit_start / 64 + 1) (bit_end / 64 - (bit_start / 64 + 1)) in
        let last_word_bits = bit_end - bit_end / 64 * 64 in
        if ltb 0 last_word_bits
        then count + pop_count64 (u64 (words (bit_end / 64) <<< (64 - last_word_bits)))
        else count

-- The bit found in a word that is not 0: no search where its lowest digit is set.
abbrev pub offset : ℕ → ℕ
offset word = if bit_and word 1 == 0 then trailing_zeros64 word else 0

unfoldable pub scan_clear : CustomBitSet → ℕ → ℕ → ℕ → ℕ
scan_clear words valid_bits i zero = valid_bits
scan_clear words valid_bits i (suc n) =
    let rest = scan_clear words valid_bits (suc i) n in
    if complement (words i) == 0 then rest else i * 64 + trailing_zeros64 (complement (words i))

unfoldable pub find_first_clear : ℕ → CustomBitSet → ℕ → ℕ
find_first_clear valid_bits words bit_start =
    let word = complement (words (bit_start / 64)) >>> (bit_start % 64) in
    if word == 0
    then scan_clear words valid_bits (bit_start / 64 + 1)
        (word_count valid_bits - (bit_start / 64 + 1))
    else bit_start + offset word

unfoldable pub scan_set : CustomBitSet → ℕ → ℕ → ℕ → ℕ
scan_set words bit_end i zero = bit_end
scan_set words bit_end i (suc n) =
    let rest = scan_set words bit_end (suc i) n in
    if words i == 0 then rest else i * 64 + trailing_zeros64 (words i)

unfoldable pub find_first_set : CustomBitSet → ℕ → ℕ → ℕ
find_first_set words bit_start bit_end =
    let word = words (bit_start / 64) >>> (bit_start % 64) in
    if word == 0
    then scan_set words bit_end (bit_start / 64 + 1)
        ((bit_end + 64 - 1) / 64 - (bit_start / 64 + 1))
    else bit_start + offset word

-- The masks of SetRange and ClearRange: within one word, from a bit to the end of a word, and the
-- first few bits of a word.
abbrev pub inner_mask : ℕ → ℕ → ℕ
inner_mask bit_start bit_end = u64 (((1 <<< (bit_end - bit_start)) - 1) <<< bit_start)

abbrev pub upper_mask : ℕ → ℕ
upper_mask bit_start = u64 (all_ones <<< bit_start)

abbrev pub lower_mask : ℕ → ℕ
lower_mask bits = (1 <<< bits) - 1

unfoldable pub set_range : CustomBitSet → ℕ → ℕ → CustomBitSet
set_range words bit_start bit_end =
    if leb bit_end bit_start
    then words
    else let first = bit_start / 64 in
      let last = bit_end / 64 in
      if last == first
      then store words first (bit_or (words first) (inner_mask (bit_start % 64) (bit_end % 64)))
      else let begun = store words first (bit_or (words first) (upper_mask (bit_start % 64))) in
        let filled = fill begun all_ones (first + 1) (last - (first + 1)) in
        let last_word_bits = bit_end - last * 64 in
        if ltb 0 last_word_bits
        then store filled last (bit_or (filled last) (lower_mask last_word_bits))
        else filled

unfoldable pub clear_range : CustomBitSet → ℕ → ℕ → CustomBitSet
clear_range words bit_start bit_end =
    if leb bit_end bit_start
    then words
    else let first = bit_start / 64 in
      let last = bit_end / 64 in
      if last == first
      then store words first
          (bit_and (words first) (complement (inner_mask (bit_start % 64) (bit_end % 64))))
      else let begun =
          store words first (bit_and (words first) (complement (upper_mask (bit_start % 64)))) in
        let filled = fill begun 0 (first + 1) (last - (first + 1)) in
        let last_word_bits = bit_end - last * 64 in
        if ltb 0 last_word_bits
        then store filled last (bit_and (filled last) (complement (lower_mask last_word_bits)))
        else filled
