-- ===== src/Allocator/Allocate.antt =====
-- Allocate of PacketAllocator.cpp with the functions that it calls. A result is the address of the
-- data, 0 for the null pointer, and the new state.
use siamese.Prelude.{ℕ, zero, suc, ◌+◌, ◌-◌, ◌*◌, [], ◌∷◌, ◌++◌, u32, ltb, ◌==◌}
use siamese.Prelude.{none, some, if◌then◌else◌}
use siamese.Prelude.Lists.{length, get_or, put}
use siamese.Allocator.BitSet.{CustomBitSet}
use siamese.Allocator.System.{Calloc, simd_safe_allocate}
use siamese.Allocator.Window.{window_max_units, find_region, carve, new_window}
use siamese.Allocator.State.{
  Allocator, unit_size, window_header_bytes, window_size_bytes, fallback_threshold_units,
  region_address, units_of, move_last_few_windows_to_full,
}

-- The words of memory that `calloc` cleared.
abbrev pub zero_words : CustomBitSet
zero_words i = 0

unfoldable pub allocate_from_new_window : Calloc → ℕ → Allocator → ℕ × Allocator
allocate_from_new_window calloc units a =
    let (window, system) = simd_safe_allocate calloc a.system window_size_bytes in
    if window == 0 then (0, record a { system = system }) else (
      window + window_header_bytes + unit_size,
      record a {
        system = system;
        windows = put a.windows window (new_window zero_words units);
        preferred = a.preferred ++ window ∷ [];
        regions =
            put a.regions (window + window_header_bytes)
              (record { header = window; used_units = units });
      },
    )

-- The size that fallbackAllocate asks for.
abbrev pub fallback_bytes : ℕ → ℕ
fallback_bytes bytes = u32 (unit_size * units_of bytes)

-- The header, at the start of the block, is kept in the map, also where the block is too small for it.
unfoldable pub fallback_allocate : Calloc → ℕ → Allocator → ℕ × Allocator
fallback_allocate calloc bytes a =
    let units = units_of bytes in
    let (ptr, system) = simd_safe_allocate calloc a.system (fallback_bytes bytes) in
    if ptr == 0 then (0, record a { system = system }) else (
      ptr + unit_size,
      record a {
        system = system;
        regions = put a.regions ptr (record { header = 0; used_units = units });
      },
    )

-- A region found in the window at place i of the preferred ones.
unfoldable pub take_region : ℕ → ℕ → ℕ → ℕ → Allocator → ℕ × Allocator
take_region units i window start a =
    let region = region_address window start in
    let taken = record a {
      regions = put a.regions region (record { header = window; used_units = units });
      windows = put a.windows window (carve (a.windows window) start units);
    } in
    let full_count =
      length a.preferred - 1 - i + (if ltb window_max_units (start + units * 2) then 1 else 0) in
    (region + unit_size, move_last_few_windows_to_full full_count taken)

-- The preferred windows below place n, the last one first.
unfoldable pub scan_preferred : Calloc → ℕ → ℕ → Allocator → ℕ × Allocator
scan_preferred calloc units zero a =
    allocate_from_new_window calloc units (move_last_few_windows_to_full (length a.preferred) a)
scan_preferred calloc units (suc i) a =
    let window = get_or a.preferred i 0 in
    elim (find_region (a.windows window) units) [
      | none ↦ scan_preferred calloc units i a
      | some start ↦ take_region units i window start a
    ]

unfoldable pub allocate : Calloc → ℕ → Allocator → ℕ × Allocator
allocate calloc bytes a =
    if bytes == 0
    then (0, a)
    else if ltb fallback_threshold_units (units_of bytes)
    then fallback_allocate calloc bytes a
    else scan_preferred calloc (units_of bytes) (length a.preferred) a
