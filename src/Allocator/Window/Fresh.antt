-- ===== src/Allocator/Window/Fresh.antt =====
-- The windows that the allocator starts with, and a region that is taken and given back.
use siamese.Prelude.{ℕ, ◌+◌, ◌≤◌, ◌≡◌, ap, ◌∙◌, arith}
use siamese.Prelude.{false, some}
use siamese.Allocator.BitSet.{CustomBitSet, check, set_range, clear_all}
use siamese.Allocator.BitSet.Words.{IsWords}
use siamese.Allocator.BitSet.Members.{check-clear_all}
use siamese.Allocator.BitSet.Ranges.{check-set_range, check-clear_range}
use siamese.Allocator.BitSet.Bounds.{set_range-IsWords, all-IsWords}
use siamese.Allocator.BitSet.Count.{tally}
use siamese.Allocator.Window.{
  WindowHeader, window_max_units, find_region, carve, release, new_window, preallocated_window,
}
use siamese.Allocator.Window.Consistent.{IsConsistent, used_count, find_region-IsClear}
use siamese.Allocator.Window.Tally.{tally_run, tally-set_range}

module _ (chunk : CustomBitSet) (valid : IsWords chunk) where
  abbrev cleared : CustomBitSet
  cleared = clear_all window_max_units chunk

  cleared-IsWords : IsWords cleared
  cleared-IsWords = (all-IsWords chunk valid window_max_units).1

  cleared_count : tally (check cleared) 0 window_max_units ≡ 0
  cleared_count =
      tally_run (check cleared) false window_max_units 0
        (λ j lo h. check-clear_all window_max_units chunk j (omega arith))

  preallocated-IsConsistent : IsConsistent (preallocated_window chunk)
  unfolding preallocated_window
  preallocated-IsConsistent = (
    cleared-IsWords,
    omega (arith, used_count cleared cleared-IsWords, cleared_count),
    omega arith,
  )

  new_window-IsConsistent :
      (units : ℕ) → units ≤ window_max_units → IsConsistent (new_window chunk units)
  unfolding new_window
  new_window-IsConsistent units h =
      let ok = set_range-IsWords cleared cleared-IsWords 0 units in
      let e : 0 + units ≡ units = omega arith in
      (
        ok,
        omega (
          arith,
          used_count (set_range cleared 0 units) ok,
          cleared_count,
          ap (λ (x : ℕ). tally (check (set_range cleared 0 x)) 0 window_max_units) e,
          tally-set_range cleared 0 units window_max_units (omega arith)
              (λ j lo k. check-clear_all window_max_units chunk j (omega arith)),
        ),
        h,
      )

  -- A preallocated window, and a new one whose first region has at most 2048 units, are
  -- consistent whatever 64-bit words their memory held before.
  pub fresh-IsConsistent :
      (units : ℕ)
      → units ≤ window_max_units
      → IsConsistent (preallocated_window chunk) × IsConsistent (new_window chunk units)
  fresh-IsConsistent units h = (preallocated-IsConsistent, new_window-IsConsistent units h)

-- Taking a region that was found in a consistent window for two units or more and giving it back
-- restores the units in use and the free count.
pub release-carve :
    (w : WindowHeader)
    → IsConsistent w
    → (units r j : ℕ) → 2 ≤ units
    → find_region w units ≡ some r
    → (check (release (carve w r units) r units).used j ≡ check w.used j)
      × ((release (carve w r units) r units).free_unit_count ≡ w.free_unit_count)
unfolding release carve
release-carve w ok units r j two found =
    let (room, inside, clear_run) = find_region-IsClear w ok units two r found in
    (
      check-clear_range (set_range w.used r (r + units)) r (r + units) j
          ∙ ground (arith, check-set_range w.used r (r + units) j, clear_run j),
      omega (arith, ok.1),
    )
