-- ===== src/Tools/PcgRandom.antt =====
-- PCGRandom of SiameseTools.h: a generator of random numbers on a 64-bit state.
pub mod Laws
use siamese.Prelude.{ℕ, ◌+◌, ◌-◌, ◌*◌, ◌^◌, bit_and, bit_or, bit_xor, u32, u64, ◌<<<◌, ◌>>>◌}

pub record PcgRandom : Type 0 where
  pub state : ℕ
  pub inc : ℕ

-- The member initializers.
abbrev pub new_random : PcgRandom
new_random = record { state = 0; inc = 0 }

abbrev pub multiplier : ℕ
multiplier = 6364136223846793005

-- (xorshifted >> rot) | (xorshifted << ((uint32_t)(-(int32_t)rot) & 31))
unfoldable pub rotated : ℕ → ℕ → ℕ
rotated xorshifted rot =
    bit_or (xorshifted >>> rot) (u32 (xorshifted <<< bit_and (u32 (2 ^ 32 - rot)) 31))

-- The number, and the generator behind it.
unfoldable pub next : PcgRandom → ℕ × PcgRandom
next s =
    let old_state = s.state in
    let xorshifted = u32 (bit_xor (old_state >>> 18) old_state >>> 27) in
    let rot = u32 (old_state >>> 59) in
    (rotated xorshifted rot, record s { state = u64 (old_state * multiplier + s.inc) })

unfoldable pub seed : ℕ → ℕ → PcgRandom
seed y x =
    let (first, s) = next (record { state = 0; inc = bit_or (u64 (y <<< 1)) 1 }) in
    let (second, t) = next (record s { state = u64 (s.state + x) }) in t
