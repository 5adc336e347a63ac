-- ===== src/Allocator/Report.antt =====
-- What PacketAllocator.cpp tells of an allocator: GetMemoryUsedBytes, GetMemoryAllocatedBytes and
-- IntegrityCheck (as without PKTALLOC_SHRINK).
use siamese.Prelude.{ℕ, zero, suc, ◌+◌, ◌-◌, ◌*◌, ◌^◌, List, [], ◌∷◌, u32, ltb, leb, ◌==◌}
use siamese.Prelude.{Bool, true, false, not, ◌&&◌, if◌then◌else◌}
use siamese.Prelude.Int.{ℤ, pos, negsuc}
use siamese.Prelude.Lists.{length, get_or}
use siamese.Allocator.BitSet.{range_popcount}
use siamese.Allocator.Window.{WindowHeader, window_max_units}
use siamese.Allocator.State.{Allocator, unit_size, preallocated_windows}
use siamese.Allocator.Free.{in_full_list}

-- The loop of GetMemoryUsedBytes over a list of windows.
unfoldable pub add_used : (ℕ → WindowHeader) → List ℕ → ℕ → ℕ
add_used windows [] sum = sum
add_used windows (w ∷ ws) sum = add_used windows ws (
    if w == 0
    then sum
    else u32 (sum + u32 (window_max_units + 2 ^ 32 - (windows w).free_unit_count)))

unfoldable pub get_memory_used_bytes : Allocator → ℕ
get_memory_used_bytes a =
    u32 (add_used a.windows a.full (add_used a.windows a.preferred 0) * unit_size)

unfoldable pub get_memory_allocated_bytes : Allocator → ℕ
get_memory_allocated_bytes a =
    u32 ((length a.preferred + length a.full) * window_max_units * unit_size)

-- Whether the test holds at n places from i on.
unfoldable pub every : (ℕ → Bool) → ℕ → ℕ → Bool
every test i zero = true
every test i (suc n) = test i && every test (suc i) n

-- The window at place i is at no other place of the list; it is at no place of the list.
unfoldable pub unique : List ℕ → ℕ → Bool
unique windows i =
    every (λ j. not (get_or windows i 0 == get_or windows j 0 && not (i == j))) 0 (length windows)

unfoldable pub absent : ℕ → List ℕ → Bool
absent window others = every (λ j. not (window == get_or others j 0)) 0 (length others)

-- The counts of a window.
unfoldable pub counts_agree : WindowHeader → Bool
counts_agree h =
    leb h.resume_scan_offset window_max_units
    && (range_popcount h.used 0 window_max_units
        == u32 (window_max_units + 2 ^ 32 - h.free_unit_count))

unfoldable pub check_preferred : Allocator → ℕ → Bool
check_preferred a i =
    let window = get_or a.preferred i 0 in
    let h = a.windows window in
    not (window == 0)
    && not (in_full_list h)
    && unique a.preferred i
    && ltb 0 h.free_unit_count
    && leb h.free_unit_count window_max_units
    && counts_agree h

-- FullListIndex != (int)i.
abbrev pub is_place : ℤ → ℕ → Bool
is_place index i = elim index [ pos n ↦ n == i | negsuc n ↦ false ]

unfoldable pub check_full : Allocator → ℕ → Bool
check_full a i =
    let window = get_or a.full i 0 in
    let h = a.windows window in
    not (window == 0)
    && is_place h.full_list_index i
    && absent window a.preferred
    && unique a.full i
    && counts_agree h

unfoldable pub count_preallocated : (ℕ → WindowHeader) → List ℕ → ℕ → ℕ
count_preallocated windows [] n = n
count_preallocated windows (w ∷ ws) n =
    count_preallocated windows ws (if (windows w).preallocated then n + 1 else n)

unfoldable pub integrity_check : Allocator → Bool
integrity_check a =
    every (check_preferred a) 0 (length a.preferred)
    && every (check_full a) 0 (length a.full)
    && (count_preallocated a.windows a.full (count_preallocated a.windows a.preferred 0)
        == preallocated_windows)
