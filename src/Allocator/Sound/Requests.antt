-- ===== src/Allocator/Sound/Requests.antt =====
-- How many units a request takes.
use siamese.Prelude.{ℕ, ◌+◌, ◌-◌, ◌*◌, ◌^◌, ◌≤◌, ◌<◌, ◌≡◌, ◌↔◌, arith}
use siamese.Allocator.State.{unit_size, units_of, fallback_threshold_units}
use siamese.Allocator.Allocate.{fallback_bytes}
use siamese.Allocator.Sound.Runs.{IsSmall}

-- A request of 1 to 2 ^ 32 - 16 bytes takes one unit for its header and the fewest further units of
-- 16 bytes that hold it.
pub units_of_bounds :
    (bytes : ℕ)
    → 1 ≤ bytes
    → bytes + unit_size ≤ 2 ^ 32
    → (2 ≤ units_of bytes)
      × (bytes ≤ (units_of bytes - 1) * unit_size)
      × ((units_of bytes - 1) * unit_size < bytes + unit_size)
unfolding units_of
units_of_bounds bytes h k = (omega arith, omega arith, omega arith)

-- A request of more than 2 ^ 32 - 16 bytes, below 2 ^ 32, takes one unit, that of its header.
pub units_of_overflow :
    (bytes : ℕ) → 2 ^ 32 < bytes + unit_size → bytes < 2 ^ 32 → units_of bytes ≡ 1
unfolding units_of
units_of_overflow bytes h k = omega arith

-- A request of up to 8176 bytes is served from a window.
pub IsSmall-request :
    (bytes : ℕ) → 1 ≤ bytes → bytes ≤ (fallback_threshold_units - 1) * unit_size → IsSmall bytes
unfolding units_of
IsSmall-request bytes h k = (omega arith, omega arith)

-- For a request of one byte or more, below 2 ^ 32, the block that fallbackAllocate asks for has room
-- for the header and the bytes asked for if and only if these are at most 2 ^ 32 - 32.
pub fallback_fits_iff :
    (bytes : ℕ)
    → 1 ≤ bytes
    → bytes < 2 ^ 32
    → (unit_size + bytes ≤ fallback_bytes bytes) ↔ (bytes ≤ 2 ^ 32 - 32)
unfolding units_of
fallback_fits_iff bytes h k = (λ fit. omega arith, λ le. omega arith)
