-- ===== src/Allocator/Window/Examples.antt =====
-- A window with two regions in use: tests, and the theorems at inputs that meet their conditions.
use siamese.Prelude.{◌-◌, ◌≡◌, refl, ◌∙◌, arith, none, some, ltb, ◌==◌, if◌then◌else◌}
use siamese.Allocator.BitSet.{
  CustomBitSet, find_first_clear, find_first_set, scan_clear, scan_set, lowest, set_range,
  clear_all, fill,
}
use siamese.Allocator.BitSet.Words.{IsWords}
use siamese.Allocator.BitSet.Ranges.{check-set_range}
use siamese.Allocator.BitSet.Search.{search}
use siamese.Allocator.Window.{
  WindowHeader, window_max_units, walk, find_region, carve, release, new_window,
}
use siamese.Allocator.Window.Regions.{fits, walk-eq-search}
use siamese.Allocator.Window.Consistent.{
  IsConsistent, IsUsed, find_region-eq-search, carve-IsConsistent, release-IsConsistent,
}
use siamese.Allocator.Window.Fresh.{fresh-IsConsistent}

-- Memory before it is initialised.
abbrev garbage : CustomBitSet
garbage i = 0x1234

garbage-IsWords : IsWords garbage
garbage-IsWords i = omega arith

-- Units 0 to 2 in use.
abbrev first : WindowHeader
first = new_window garbage 3

first-IsConsistent : IsConsistent first
first-IsConsistent = (fresh-IsConsistent garbage garbage-IsWords 3 (omega arith)).1

-- Bits 4 to 7 in use and the rest of the window free.
abbrev holes : CustomBitSet
holes i = if i == 0 then 0xF0 else 0

holes-IsWords : IsWords holes
holes-IsWords i = ground arith

walk-eq-search_example : walk holes 6 2048 0 ≡ search (fits holes 6) 0 2048
walk-eq-search_example = walk-eq-search holes holes-IsWords 6 (omega arith) 2048 0 (omega arith)

first_found : find_region first 5 ≡ some 3
unfolding find_region walk new_window find_first_clear find_first_set scan_clear scan_set lowest
    set_range clear_all fill
first_found = refl

first_used : IsUsed first.used 0 3
unfolding new_window
first_used j lo h = check-set_range (clear_all window_max_units garbage) 0 3 j ∙ ground arith

find_region-eq-search_example : find_region first 5 ≡ (
    if ltb first.free_unit_count 5
    then none
    else search (fits first.used 5) first.resume_scan_offset (2048 - first.resume_scan_offset))
find_region-eq-search_example = find_region-eq-search first first-IsConsistent 5 (omega arith)

carve-IsConsistent_example : IsConsistent (carve first 3 5)
carve-IsConsistent_example =
    carve-IsConsistent first first-IsConsistent 5 3 (omega arith) first_found

release-IsConsistent_example : IsConsistent (release first 0 3)
release-IsConsistent_example =
    release-IsConsistent first first-IsConsistent 0 3 (omega arith) first_used
