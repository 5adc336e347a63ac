-- ===== src/Allocator/Sound/Integrity/Windows.antt =====
-- The tests of IntegrityCheck on one window.
use siamese.Prelude.{ℕ, ◌+◌, ◌-◌, ◌^◌, ◌≤◌, ◌≡◌, ap, arith, u32}
use siamese.Prelude.{true, false, not, ltb, leb, ◌==◌, and-true, not-true}
use siamese.Prelude.Int.{ℤ, pos, negsuc}
use siamese.Prelude.Lists.{get_or, count}
use siamese.Allocator.BitSet.{range_popcount}
use siamese.Allocator.Window.{WindowHeader, window_max_units, not_in_full_list}
use siamese.Allocator.State.{Allocator}
use siamese.Allocator.Free.{in_full_list}
use siamese.Allocator.Report.{unique, absent, counts_agree, check_preferred, is_place, check_full}
use siamese.Allocator.Sound.Integrity.Places.{true_and, absent-count}

-- The scan offset of a window lies in it, and its used units and its free units make up the window,
-- the difference taken in 32 bits.
abbrev pub HasCounts : WindowHeader → Type 0
HasCounts h =
    (h.resume_scan_offset ≤ window_max_units)
    × (range_popcount h.used 0 window_max_units
        ≡ u32 (window_max_units + 2 ^ 32 - h.free_unit_count))

pub HasCounts-counts_agree : (h : WindowHeader) → HasCounts h → counts_agree h ≡ true
unfolding counts_agree
HasCounts-counts_agree h (resume, sum) =
    let agree : (range_popcount h.used 0 window_max_units
          == u32 (window_max_units + 2 ^ 32 - h.free_unit_count))
        ≡ true =
      ground arith in
    true_and {x = leb h.resume_scan_offset window_max_units} (ground arith) agree

counts_agree-HasCounts : (h : WindowHeader) → counts_agree h ≡ true → HasCounts h
unfolding counts_agree
counts_agree-HasCounts h t =
    let (resume, agree) =
      and-true (leb h.resume_scan_offset window_max_units)
        (range_popcount h.used 0 window_max_units
          == u32 (window_max_units + 2 ^ 32 - h.free_unit_count))
        t in
    (ground arith, ground arith)

in_full_list-outside :
    (z : ℤ) → elim z [ pos n ↦ true | negsuc n ↦ not (n == 0) ] ≡ false → z ≡ not_in_full_list
in_full_list-outside (pos n) e = cc
in_full_list-outside (negsuc n) e = ap negsuc (ground arith)

is_place-pos : (z : ℤ) (i : ℕ) → is_place z i ≡ true → z ≡ pos i
is_place-pos (pos n) i e = ap pos (ground arith)
is_place-pos (negsuc n) i e = cc

-- What the tests of one window say.
abbrev pub Passes : Allocator → ℕ → Type 0
Passes a w = (1 ≤ w) × HasCounts (a.windows w)

pub preferred_tests :
    (a : Allocator) (i : ℕ)
    → check_preferred a i ≡ true
    → let w = get_or a.preferred i 0 in
      Passes a w
      × ((a.windows w).full_list_index ≡ not_in_full_list)
      × (1 ≤ (a.windows w).free_unit_count)
      × ((a.windows w).free_unit_count ≤ window_max_units)
      × (unique a.preferred i ≡ true)
unfolding check_preferred
preferred_tests a i t =
    let w = get_or a.preferred i 0 in
    let h = a.windows w in
    let (t5, counts) = and-true _ (counts_agree h) t in
    let (t4, not_over) = and-true _ (leb h.free_unit_count window_max_units) t5 in
    let (t3, some_free) = and-true _ (ltb 0 h.free_unit_count) t4 in
    let (t2, once) = and-true _ (unique a.preferred i) t3 in
    let (nonnull, out) = and-true (not (w == 0)) (not (in_full_list h)) t2 in
    let positive : (w == 0) ≡ false = not-true (w == 0) nonnull in
    (
      (ground arith, counts_agree-HasCounts h counts),
      in_full_list-outside h.full_list_index (not-true (in_full_list h) out),
      ground arith,
      ground arith,
      once,
    )

pub full_tests :
    (a : Allocator) (i : ℕ)
    → check_full a i ≡ true
    → let w = get_or a.full i 0 in
      Passes a w
      × ((a.windows w).full_list_index ≡ pos i)
      × (count w a.preferred ≡ 0)
      × (unique a.full i ≡ true)
unfolding check_full
full_tests a i t =
    let w = get_or a.full i 0 in
    let h = a.windows w in
    let (t4, counts) = and-true _ (counts_agree h) t in
    let (t3, once) = and-true _ (unique a.full i) t4 in
    let (t2, away) = and-true _ (absent w a.preferred) t3 in
    let (nonnull, placed) = and-true (not (w == 0)) (is_place h.full_list_index i) t2 in
    let positive : (w == 0) ≡ false = not-true (w == 0) nonnull in
    (
      (ground arith, counts_agree-HasCounts h counts),
      is_place-pos h.full_list_index i placed,
      absent-count w a.preferred away,
      once,
    )
