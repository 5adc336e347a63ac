-- ===== src/Allocator/Free.antt =====
-- Free, Shrink and Reallocate of PacketAllocator.cpp, and the constructor and destructor.
use siamese.Prelude.{ℕ, zero, suc, ◌+◌, ◌-◌, ◌*◌, List, [], ◌∷◌, ◌++◌, u32, ltb, leb, ◌==◌}
use siamese.Prelude.{Bool, true, not, ◌&&◌, if◌then◌else◌}
use siamese.Prelude.Int.{pos, negsuc, pos_part}
use siamese.Prelude.Lists.{length, get_or, set, take, put}
use siamese.Prelude.Memory.{Memory}
use siamese.Allocator.System.{System, Calloc, simd_safe_allocate, simd_safe_free}
use siamese.Allocator.Window.{
  WindowHeader, release, give_back, not_in_full_list, preallocated_window,
}
use siamese.Allocator.State.{
  Allocator, AllocationHeader, unit_size, window_size_bytes, preferred_threshold_units,
  preallocated_windows, units_of, unit_start,
}
use siamese.Allocator.Allocate.{allocate, zero_words}

-- Whether FullListIndex is not kNotInFullList.
abbrev pub in_full_list : WindowHeader → Bool
in_full_list w = elim w.full_list_index [ pos n ↦ true | negsuc n ↦ not (n == 0) ]

-- The last window of the full list takes the place of the one that leaves it.
unfoldable pub leave_full_list : ℕ → Allocator → Allocator
leave_full_list window a =
    let full_count = length a.full in
    let full_index = pos_part (a.windows window).full_list_index in
    let replacement = get_or a.full (full_count - 1) 0 in
    let swapped =
      if ltb full_index (full_count - 1)
      then record a {
        full = set a.full full_index replacement;
        windows =
            put a.windows replacement
              (record (a.windows replacement) { full_list_index = pos full_index });
      }
      else a in
    record swapped { full = take (full_count - 1) swapped.full }

-- A window of the full list with enough free units becomes a preferred one.
unfoldable pub promote : ℕ → Allocator → Allocator
promote window a =
    let w = a.windows window in
    if leb preferred_threshold_units w.free_unit_count && in_full_list w
    then (let rescanned = record a {
      windows = put a.windows window (record w { resume_scan_offset = 0 });
    } in
        let left = leave_full_list window rescanned in
        record left {
          windows =
              put left.windows window
                (record (left.windows window) { full_list_index = not_in_full_list });
          preferred = left.preferred ++ window ∷ [];
        })
    else a

unfoldable pub mark_freed : ℕ → Allocator → Allocator
mark_freed region a = record a {
  regions = put a.regions region (record (a.regions region) { used_units = 0 });
}

unfoldable pub fallback_free : ℕ → Allocator → Allocator
fallback_free ptr a = record a { system = simd_safe_free a.system (ptr - unit_size) }

unfoldable pub free : ℕ → Allocator → Allocator
free ptr a =
    let region = ptr - unit_size in
    let window = (a.regions region).header in
    let units = (a.regions region).used_units in
    if ptr == 0
    then a
    else if units == 0
    then a
    else if window == 0
    then fallback_free ptr (mark_freed region a)
    else let freed = record (mark_freed region a) {
      windows = put a.windows window (release (a.windows window) (unit_start window region) units);
    } in
      promote window freed

unfoldable pub shrink : ℕ → ℕ → Allocator → Allocator
shrink ptr bytes a =
    let region = ptr - unit_size in
    let window = (a.regions region).header in
    let units_needed = units_of bytes in
    let units_current = (a.regions region).used_units in
    if ptr == 0
    then a
    else if units_current == 0
    then a
    else if ltb units_needed units_current
    then if window == 0 then a else record a {
      windows =
          put a.windows window
            (give_back (a.windows window) (unit_start window region) units_needed units_current);
      regions = put a.regions region (record (a.regions region) { used_units = units_needed });
    }
    else a

-- pktalloc::Realloc.
pub data Realloc : Type 0 where
  uninitialized : Realloc
  copy_existing : Realloc

abbrev pub copied : Memory → ℕ → ℕ → ℕ → Memory
copied m target source n j =
    if leb target j then if ltb j (target + n) then m (source + (j - target)) else m j else m j

-- The copy that Reallocate makes of the existing units.
unfoldable pub copy_old : Realloc → ℕ → ℕ → ℕ → Allocator → Allocator
copy_old uninitialized target source existing_units a = a
copy_old copy_existing target source existing_units a = record a {
  system = record (a.system) {
    memory = copied (a.system).memory target source (u32 ((existing_units - 1) * unit_size));
  };
}

unfoldable pub reallocate : Calloc → ℕ → ℕ → Realloc → Allocator → ℕ × Allocator
reallocate calloc ptr bytes behavior a =
    let existing_units = (a.regions (ptr - unit_size)).used_units in
    let (new_ptr, grown) = allocate calloc bytes a in
    if ptr == 0
    then allocate calloc bytes a
    else if bytes == 0
    then (0, free ptr a)
    else if leb (units_of bytes) existing_units
    then (ptr, a)
    else if new_ptr == 0
    then (0, grown)
    else (new_ptr, free ptr (copy_old behavior new_ptr ptr existing_units grown))

-- The loop of the constructor over the windows of the chunk, n of them from place i on.
unfoldable pub preallocate : ℕ → ℕ → ℕ → Allocator → Allocator
preallocate start i zero a = a
preallocate start i (suc n) a = preallocate (start + window_size_bytes) (suc i) n (record a {
  windows = put a.windows start (preallocated_window zero_words);
  preferred = set a.preferred i start;
})

-- The constructor, on an allocator whose members hold their defaults: the elements of the preferred
-- list are uninitialised until the loop sets them.
unfoldable pub construct : Calloc → Allocator → Allocator
construct calloc a =
    let (chunk, system) =
      simd_safe_allocate calloc a.system (window_size_bytes * preallocated_windows) in
    let started = record a { system = system; huge_chunk_start = chunk } in
    if chunk == 0 then started else preallocate chunk 0 preallocated_windows started

-- The destructor frees the windows that are not part of the chunk, and the chunk.
unfoldable pub free_windows : (ℕ → WindowHeader) → List ℕ → System → System
free_windows windows [] system = system
free_windows windows (w ∷ ws) system =
    free_windows windows ws
      (if not (w == 0) && not (windows w).preallocated then simd_safe_free system w else system)

unfoldable pub destruct : Allocator → System
destruct a =
    simd_safe_free (free_windows a.windows a.full (free_windows a.windows a.preferred a.system))
      a.huge_chunk_start

-- The members before the constructor runs, its list sized for the chunk's windows: x and y are what
-- its two elements hold, windows and regions what the memory holds.
unfoldable pub default_members :
    System → (ℕ → WindowHeader) → (ℕ → AllocationHeader) → ℕ → ℕ → Allocator
default_members system windows regions x y = record {
  system = system;
  windows = windows;
  regions = regions;
  huge_chunk_start = 0;
  preferred = x ∷ y ∷ [];
  full = [];
}
