-- ===== src/Allocator/Sound/Examples.antt =====
-- An allocator on an empty heap: tests, and the theorems at inputs that meet their conditions.
use siamese.Prelude.{ℕ, zero, suc, ◌+◌, ◌-◌, ◌*◌, ◌^◌, ◌≤◌, ◌<◌, ◌≡◌, ◌≢◌, ◌↔◌, refl, arith}
use siamese.Prelude.{[], ◌∷◌, true, false, u32}
use siamese.Prelude.Int.{negsuc}
use siamese.Prelude.Lists.{length, get_or, count, place_of}
use siamese.Prelude.Memory.{Memory}
use siamese.Allocator.BitSet.{
  find_first_clear, find_first_set, scan_clear, scan_set, lowest, set_range, clear_all, fill,
  range_popcount, count_bits, count_words, clear_range,
}
use siamese.Allocator.System.{System, simd_safe_allocate}
use siamese.Allocator.System.Bump.{top, bump, bump-IsFresh}
use siamese.Allocator.System.Blocks.{IsInside}
use siamese.Allocator.Window.{WindowHeader, find_region, walk, carve, release, preallocated_window}
use siamese.Allocator.State.{
  Allocator, AllocationHeader, unit_size, units_of, move_last_few_windows_to_full, move_windows,
}
use siamese.Allocator.Allocate.{
  allocate, scan_preferred, take_region, fallback_allocate, fallback_bytes,
}
use siamese.Allocator.Free.{
  free, reallocate, construct, preallocate, default_members, copy_existing, promote,
  leave_full_list, mark_freed,
}
use siamese.Allocator.Report.{
  every, check_preferred, unique, counts_agree, get_memory_used_bytes, integrity_check,
}
use siamese.Allocator.Sound.{Region, AllRegions, IsOwned, IsIndexed}
use siamese.Allocator.Sound.Overlap.{IsDisjoint}
use siamese.Allocator.Sound.Take.{IsAllocated}
use siamese.Allocator.Sound.Allocations.{allocate-IsAllocated}
use siamese.Allocator.Sound.Start.{construct-IsOwned}
use siamese.Allocator.Sound.Runs.{
  here, there, allocated, freed, Steps, begun, next, pointer, region_at, constructed,
}
use siamese.Allocator.Sound.Reachable.{IsSound, reachable-IsSound, reachable-IsDisjoint}
use siamese.Allocator.Sound.Requests.{IsSmall-request, fallback_fits_iff}
use siamese.Allocator.Sound.Reallocations.{IsGrown, HoldsOld, reallocate-IsGrown}
use siamese.Allocator.Sound.Fallback.{IsRestored, free-allocate_fallback}
use siamese.Allocator.Sound.Usage.{total_units, get_memory_used_bytes_lem}
use siamese.Allocator.Sound.Integrity.{IsChecked, integrity_check_iff, IsOwned-IsChecked}
use siamese.Allocator.Sound.Integrity.Places.{preallocated_of}
use mathlib.Core.Path.{subst}

abbrev empty_heap : System
empty_heap = record { memory = λ j. 0; blocks = [] }

abbrev blank_windows : ℕ → WindowHeader
blank_windows w = record {
  used = λ i. 0;
  free_unit_count = 0;
  resume_scan_offset = 0;
  full_list_index = negsuc 0;
  preallocated = false;
}

abbrev blank_regions : ℕ → AllocationHeader
blank_regions r = record { header = 0; used_units = 0 }

abbrev first_state : Allocator
first_state = construct bump (default_members empty_heap blank_windows blank_regions 0 0)

chunk_start : first_state.huge_chunk_start ≡ 32
unfolding construct preallocate default_members simd_safe_allocate top
chunk_start = refl

had_chunk : first_state.huge_chunk_start ≢ 0
had_chunk z = absurd (omega (arith, chunk_start))

construct-first : IsOwned [] first_state × IsIndexed first_state
construct-first =
    construct-IsOwned bump bump-IsFresh empty_heap blank_windows blank_regions 0 0 had_chunk

first_allocation : (allocate bump 100 first_state).0 ≡ 33360
unfolding construct preallocate default_members simd_safe_allocate top allocate scan_preferred
    units_of find_region walk find_first_clear find_first_set scan_clear scan_set lowest
    preallocated_window clear_all fill take_region
first_allocation = refl

abbrev second_state : Allocator
second_state = (allocate bump 100 first_state).1

abbrev held : Region
held = region_at (allocate bump 100 first_state).0 second_state

first_run :
    Steps bump
      (constructed bump empty_heap blank_windows blank_regions 0 0)
      (record { live = held ∷ []; allocator = second_state })
first_run = next begun (
    allocated [] first_state 100 (omega arith) (IsSmall-request 100 (omega arith) (omega arith))
      (λ z. absurd (omega (arith, first_allocation))))

held-IsSound : IsSound (record { live = held ∷ []; allocator = second_state })
held-IsSound =
    reachable-IsSound bump bump-IsFresh empty_heap blank_windows blank_regions 0 0 had_chunk
      first_run

second_allocation : (allocate bump 40 second_state).0 ≡ 33488
unfolding construct preallocate default_members simd_safe_allocate top allocate scan_preferred
    units_of find_region walk find_first_clear find_first_set scan_clear scan_set lowest
    preallocated_window clear_all fill take_region carve set_range move_last_few_windows_to_full
    move_windows
second_allocation = refl

abbrev third_state : Allocator
third_state = (allocate bump 40 second_state).1

abbrev held_too : Region
held_too = region_at (allocate bump 40 second_state).0 third_state

second_run :
    Steps bump
      (constructed bump empty_heap blank_windows blank_regions 0 0)
      (record { live = held_too ∷ held ∷ []; allocator = third_state })
second_run = next first_run (
    allocated (held ∷ []) second_state 40 (omega arith)
      (IsSmall-request 40 (omega arith) (omega arith))
      (λ z. absurd (omega (arith, second_allocation))))

both-IsSound : IsSound (record { live = held_too ∷ held ∷ []; allocator = third_state })
both-IsSound =
    reachable-IsSound bump bump-IsFresh empty_heap blank_windows blank_regions 0 0 had_chunk
      second_run

-- The first of two allocations is given back.
reachable-IsSound_example :
    IsSound (record { live = held_too ∷ []; allocator = free (pointer held) third_state })
reachable-IsSound_example =
    reachable-IsSound bump bump-IsFresh empty_heap blank_windows blank_regions 0 0 had_chunk
      (next second_run (freed held (held_too ∷ held ∷ []) (held_too ∷ []) third_state (there here)))

reachable-IsDisjoint_example :
    IsInside (pointer held) ((held.units - 1) * unit_size) (third_state.system).blocks
    × AllRegions (IsDisjoint held) (held_too ∷ [])
reachable-IsDisjoint_example =
    reachable-IsDisjoint bump bump-IsFresh empty_heap blank_windows blank_regions 0 0 had_chunk
      (record { live = held_too ∷ held ∷ []; allocator = third_state }) second_run held
      (held_too ∷ []) (there here)

allocate-IsAllocated_example : IsAllocated (held ∷ []) (units_of 40) (allocate bump 40 second_state)
allocate-IsAllocated_example =
    allocate-IsAllocated bump bump-IsFresh (held ∷ []) second_state held-IsSound.0 held-IsSound.1 40
      (omega arith) (IsSmall-request 40 (omega arith) (omega arith)).1
      (IsSmall-request 40 (omega arith) (omega arith)).0

held_units : held.units ≡ 8
unfolding construct preallocate default_members simd_safe_allocate top allocate scan_preferred
    units_of find_region walk find_first_clear find_first_set scan_clear scan_set lowest
    preallocated_window clear_all fill take_region carve set_range move_last_few_windows_to_full
    move_windows
held_units = refl

units_of_400 : units_of 400 ≡ 26
unfolding units_of
units_of_400 = refl

units_of_9000 : units_of 9000 ≡ 564
unfolding units_of
units_of_9000 = refl

units_of_40 : units_of 40 ≡ 4
unfolding units_of
units_of_40 = refl

reallocate-IsGrown_example :
    IsGrown
      (held_too ∷ held ∷ [])
      (held_too ∷ [])
      (units_of 400)
      (HoldsOld copy_existing held third_state)
      (reallocate bump (pointer held) 400 copy_existing third_state)
reallocate-IsGrown_example =
    reallocate-IsGrown bump bump-IsFresh held (held_too ∷ held ∷ []) (held_too ∷ []) third_state
      both-IsSound.0 both-IsSound.1 (there here) 400 copy_existing (omega arith)
      (IsSmall-request 400 (omega arith) (omega arith)) (omega (arith, held_units, units_of_400))

get_memory_used_bytes_lem_example :
    get_memory_used_bytes third_state ≡ u32 (total_units (held_too ∷ held ∷ []) * unit_size)
get_memory_used_bytes_lem_example =
    get_memory_used_bytes_lem (held_too ∷ held ∷ []) third_state both-IsSound.0

some_free_at :
    (i : ℕ)
    → i < length first_state.preferred
    → 1 ≤ (first_state.windows (get_or first_state.preferred i 0)).free_unit_count
unfolding construct preallocate default_members simd_safe_allocate top preallocated_window
some_free_at zero lt = omega arith
some_free_at (suc zero) lt = omega arith
some_free_at (suc (suc i)) lt = absurd (omega arith)

some_free :
    (w : ℕ) → 1 ≤ count w first_state.preferred → 1 ≤ (first_state.windows w).free_unit_count
some_free w counted =
    let (i, lt, e) = place_of w first_state.preferred counted in
    subst (λ v. 1 ≤ (first_state.windows v).free_unit_count) e (some_free_at i lt)

both_preallocated :
    preallocated_of first_state.windows first_state.preferred
      + preallocated_of first_state.windows first_state.full
    ≡ 2
unfolding construct preallocate default_members simd_safe_allocate top preallocated_window
both_preallocated = refl

integrity_check_iff_example : (integrity_check first_state ≡ true) ↔ IsChecked first_state
integrity_check_iff_example = integrity_check_iff first_state

first_passes : integrity_check first_state ≡ true
first_passes = integrity_check_iff_example.1 (
    IsOwned-IsChecked [] first_state construct-first.0 construct-first.1 some_free
      both_preallocated)

fallback_fits_iff_example :
    (unit_size + (2 ^ 32 - 16) ≤ fallback_bytes (2 ^ 32 - 16)) ↔ (2 ^ 32 - 16 ≤ 2 ^ 32 - 32)
fallback_fits_iff_example = fallback_fits_iff (2 ^ 32 - 16) (omega arith) (omega arith)

had_fallback : (allocate bump 9000 first_state).0 ≡ 66144
unfolding construct preallocate default_members simd_safe_allocate top allocate units_of
    fallback_allocate
had_fallback = refl

abbrev fallback_memory : Memory
fallback_memory = ((allocate bump 9000 first_state).1.system).memory

free-allocate_fallback_example : IsRestored first_state fallback_memory (
    free (allocate bump 9000 first_state).0 (record (allocate bump 9000 first_state).1 {
      system = record ((allocate bump 9000 first_state).1.system) { memory = fallback_memory };
    }))
free-allocate_fallback_example =
    free-allocate_fallback bump first_state 9000 fallback_memory (omega arith)
      (omega (arith, units_of_9000)) (λ z. absurd (omega (arith, had_fallback))) refl

-- A window filled by four allocations, three of them given back, and its units taken again.
abbrev quarter : Allocator → Allocator
quarter a = (allocate bump 8176 a).1

abbrev refilled : Allocator
refilled =
    let filled = quarter (quarter (quarter (quarter first_state))) in
    let emptied = free (33360 + 1024 * 16) (free (33360 + 512 * 16) (free 33360 filled)) in
    quarter (quarter (quarter emptied))

-- It stays a preferred window, with no unit free, and IntegrityCheck fails.
refilled_preferred : refilled.preferred ≡ 32 ∷ 33072 ∷ []
unfolding construct preallocate default_members simd_safe_allocate top allocate scan_preferred
    units_of find_region walk find_first_clear find_first_set scan_clear scan_set lowest
    preallocated_window clear_all fill take_region carve set_range move_last_few_windows_to_full
    move_windows free mark_freed release promote leave_full_list clear_range
refilled_preferred = refl

refilled_fails : integrity_check refilled ≡ false
unfolding construct preallocate default_members simd_safe_allocate top allocate scan_preferred
    units_of find_region walk find_first_clear find_first_set scan_clear scan_set lowest
    preallocated_window clear_all fill take_region carve set_range move_last_few_windows_to_full
    move_windows free mark_freed release promote leave_full_list clear_range integrity_check every
    check_preferred unique counts_agree range_popcount count_bits count_words
refilled_fails = refl
