-- ===== src/Allocator/State.antt =====
-- The allocator of PacketAllocator.h: its windows, its two lists of them, and the header in front of
-- each allocation. Addresses are numbers. The headers of windows and of allocations are kept by their
-- addresses, apart from the bytes of the memory.
use siamese.Prelude.{ℕ, zero, suc, ◌+◌, ◌-◌, ◌*◌, ◌/◌, List, [], ◌∷◌, ◌++◌, u32}
use siamese.Prelude.Lists.{length, get_or, take, put}
use siamese.Prelude.Int.{pos}
use siamese.Allocator.System.{System}
use siamese.Allocator.Window.{WindowHeader, window_max_units}

abbrev pub unit_size : ℕ
unit_size = 16

-- sizeof(WindowHeader) is 269, with its padding 272.
abbrev pub window_header_bytes : ℕ
window_header_bytes = 272

abbrev pub window_size_bytes : ℕ
window_size_bytes = window_header_bytes + window_max_units * unit_size

abbrev pub fallback_threshold_units : ℕ
fallback_threshold_units = window_max_units / 4

abbrev pub preferred_threshold_units : ℕ
preferred_threshold_units = 3 * window_max_units / 4

abbrev pub preallocated_windows : ℕ
preallocated_windows = 2

-- A null window marks a fallback allocation; no units used mark a freed one.
pub record AllocationHeader : Type 0 where
  pub header : ℕ
  pub used_units : ℕ

pub record Allocator : Type 0 where
  pub system : System
  pub windows : ℕ → WindowHeader
  pub regions : ℕ → AllocationHeader
  pub huge_chunk_start : ℕ
  pub preferred : List ℕ
  pub full : List ℕ

-- The address of a unit of a window, and GetUnitStart.
abbrev pub region_address : ℕ → ℕ → ℕ
region_address window start = window + window_header_bytes + start * unit_size

abbrev pub unit_start : ℕ → ℕ → ℕ
unit_start window region = u32 (region - (window + window_header_bytes)) / unit_size

-- The units of a request: its bytes rounded up, and one for the header.
unfoldable pub units_of : ℕ → ℕ
units_of bytes = u32 (bytes + unit_size - 1) / unit_size + 1

-- The loop of moveLastFewWindowsToFull, from its round i on with n rounds left.
unfoldable pub move_windows : ℕ → ℕ → ℕ → ℕ → Allocator → Allocator
move_windows full_count preferred_count i zero a = a
move_windows full_count preferred_count i (suc n) a =
    let window = get_or a.preferred (preferred_count - 1 - i) 0 in
    move_windows full_count preferred_count (suc i) n (record a {
      full = a.full ++ window ∷ [];
      windows =
          put a.windows window
            (record (a.windows window) { full_list_index = pos (full_count + i) });
    })

unfoldable pub move_last_few_windows_to_full : ℕ → Allocator → Allocator
move_last_few_windows_to_full n a =
    let moved = move_windows (length a.full) (length a.preferred) 0 n a in
    record moved { preferred = take (length a.preferred - n) moved.preferred }
