-- ===== src/Allocator/Window/Consistent.antt =====
-- The invariant of a window that IntegrityCheck tests, and the operations that keep it.
use siamese.Prelude.{ℕ, zero, suc, ◌+◌, ◌-◌, ◌≤◌, ◌<◌, ◌≡◌, sym, ap, ◌∙◌, arith}
use siamese.Prelude.{Bool, true, false, ltb, Option, none, some, if◌then◌else◌, if_cases}
use siamese.Allocator.BitSet.{CustomBitSet, check, range_popcount, set_range, clear_range}
use siamese.Allocator.BitSet.Words.{IsWords}
use siamese.Allocator.BitSet.Bounds.{set_range-IsWords, clear_range-IsWords}
use siamese.Allocator.BitSet.Count.{tally, range_popcount-eq-tally}
use siamese.Allocator.BitSet.Search.{search}
use siamese.Allocator.Window.{
  WindowHeader, window_max_units, find_region, carve, release, give_back,
}
use siamese.Allocator.Window.Outcomes.{AllFail-cons}
use siamese.Allocator.Window.Regions.{free_run, fits, walk-eq-search}
use siamese.Allocator.Window.Tally.{tally-set_range, tally-clear_range}

-- The used units and the free ones make up the window.
abbrev pub IsConsistent : WindowHeader → Type 0
IsConsistent w =
    IsWords w.used
    × (range_popcount w.used 0 window_max_units + w.free_unit_count ≡ window_max_units)
    × (w.resume_scan_offset ≤ window_max_units)

-- The units of a region are all clear, or all in use.
abbrev pub IsClear : CustomBitSet → ℕ → ℕ → Type 0
IsClear used a n = (j : ℕ) → a ≤ j → j < a + n → check used j ≡ false

abbrev pub IsUsed : CustomBitSet → ℕ → ℕ → Type 0
IsUsed used a n = (j : ℕ) → a ≤ j → j < a + n → check used j ≡ true

none_some {ℓ} : {A : Type ℓ} {r : ℕ} → none ≡ some r → A
none_some {r} h =
    let z : zero ≡ suc zero = ap (λ (o : Option ℕ). elim o [ none ↦ zero | some x ↦ suc zero ]) h in
    absurd (omega arith)

false_true {ℓ} : {A : Type ℓ} → false ≡ true → A
false_true h =
    let z : zero ≡ suc zero = ap (λ (b : Bool). if b then suc zero else zero) h in
    absurd (omega arith)

some-injective : {a b : ℕ} → some a ≡ some b → a ≡ b
some-injective {a} {b} h = ap (λ (o : Option ℕ). elim o [ none ↦ a | some x ↦ x ]) h

search-some : (test : ℕ → Bool) (n i r : ℕ) → search test i n ≡ some r → test r ≡ true
unfolding search
search-some test zero i r h = none_some h
search-some test (suc n) i r h =
    let rest = search-some test n (suc i) r in
    if_cases (λ o. o ≡ some r → test r ≡ true) (test i)
      (λ t e. ap test (sym (some-injective e)) ∙ t) (λ t. rest) h

free_run-IsClear : (used : CustomBitSet) (n a : ℕ) → free_run used n a ≡ true → IsClear used a n
unfolding free_run
free_run-IsClear used zero a h = λ j lo k. absurd (omega arith)
free_run-IsClear used (suc n) a h =
    let rest = free_run-IsClear used n (suc a) in
    if_cases (λ b. b ≡ true → IsClear used a (suc n)) (check used a) (λ t e. false_true e)
      (λ t e. AllFail-cons (check used) a (a + suc n) t (λ j lo k. rest e j lo (omega arith))) h

fits-IsClear :
    (used : CustomBitSet) (units r : ℕ)
    → fits used units r ≡ true
    → (r + units ≤ window_max_units) × IsClear used r units
unfolding fits
fits-IsClear used units r h =
    if_cases (λ b. b ≡ true → (r + units ≤ window_max_units) × IsClear used r units)
      (ltb window_max_units (r + units)) (λ t e. false_true e)
      (λ t e. (ground arith, free_run-IsClear used units r e)) h

module _ (w : WindowHeader) (ok : IsConsistent w) (units : ℕ) (two : 2 ≤ units) where
  -- Where the count of free units allows it, the first place from the resume offset on.
  pub find_region-eq-search : find_region w units ≡ (
      if ltb w.free_unit_count units
      then none
      else search
          (fits w.used units)
          w.resume_scan_offset
          (window_max_units - w.resume_scan_offset))
  unfolding find_region
  find_region-eq-search =
      ap (λ (o : Option ℕ). if ltb w.free_unit_count units then none else o)
        (walk-eq-search w.used ok.0 units two window_max_units w.resume_scan_offset (omega arith))

  -- A region found in a consistent window for two units or more is clear, lies inside the window,
  -- and is no longer than the free count.
  pub find_region-IsClear :
      (r : ℕ)
      → find_region w units ≡ some r
      → (units ≤ w.free_unit_count) × (r + units ≤ window_max_units) × IsClear w.used r units
  find_region-IsClear r found =
      if_cases
        (λ o.
          o ≡ some r
          → (units ≤ w.free_unit_count) × (r + units ≤ window_max_units) × IsClear w.used r units)
        (ltb w.free_unit_count units) (λ t e. none_some e)
        (λ t e.
          let fit =
            search-some (fits w.used units) (window_max_units - w.resume_scan_offset)
              w.resume_scan_offset r e in
          let (inside, clear_run) = fits-IsClear w.used units r fit in
          (ground arith, inside, clear_run))
        (sym find_region-eq-search ∙ found)

-- The count of used units, bit by bit.
pub used_count :
    (used : CustomBitSet)
    → IsWords used
    → range_popcount used 0 window_max_units ≡ tally (check used) 0 window_max_units
used_count used valid = range_popcount-eq-tally used valid 0 window_max_units

-- Taking the region that the search for two units or more found in a consistent window leaves the
-- window consistent: its words have 64 bits, used and free units add up to the window, and the
-- resume offset lies in it.
pub carve-IsConsistent :
    (w : WindowHeader)
    → IsConsistent w
    → (units r : ℕ) → 2 ≤ units
    → find_region w units ≡ some r
    → IsConsistent (carve w r units)
unfolding carve
carve-IsConsistent w ok units r two found =
    let (room, inside, clear_run) = find_region-IsClear w ok units two r found in
    let valid = set_range-IsWords w.used ok.0 r (r + units) in
    (
      valid,
      omega (
        arith,
        ok.1,
        used_count w.used ok.0,
        used_count (set_range w.used r (r + units)) valid,
        tally-set_range w.used r units window_max_units inside clear_run,
      ),
      omega arith,
    )

-- Freeing a region of a consistent window, all of its units in use and inside the window, leaves
-- the window consistent.
pub release-IsConsistent :
    (w : WindowHeader)
    → IsConsistent w
    → (r units : ℕ) → r + units ≤ window_max_units
    → IsUsed w.used r units
    → IsConsistent (release w r units)
unfolding release
release-IsConsistent w ok r units inside run =
    let valid = clear_range-IsWords w.used ok.0 r (r + units) in
    (
      valid,
      omega (
        arith,
        ok.1,
        used_count w.used ok.0,
        used_count (clear_range w.used r (r + units)) valid,
        tally-clear_range w.used r units window_max_units inside run,
      ),
      if_cases (λ x. x ≤ window_max_units) (ltb r w.resume_scan_offset) (λ t. omega arith)
          (λ t. ok.2),
    )

-- Shrinking an allocation of a consistent window, all of its units in use and inside the window,
-- leaves the window consistent.
pub give_back-IsConsistent :
    (w : WindowHeader)
    → IsConsistent w
    → (r needed current : ℕ) → r + current ≤ window_max_units
    → IsUsed w.used r current
    → IsConsistent (give_back w r needed current)
unfolding give_back
give_back-IsConsistent w ok r needed current inside run =
    if_cases IsConsistent (ltb needed current)
      (λ t.
        let less : needed < current = ground arith in
        let e : r + needed + (current - needed) ≡ r + current = omega arith in
        let valid = clear_range-IsWords w.used ok.0 (r + needed) (r + current) in
        let tail_run : IsUsed w.used (r + needed) (current - needed) =
          λ j lo h. run j (omega arith) (omega arith) in
        (
          valid,
          omega (
            arith,
            ok.1,
            used_count w.used ok.0,
            used_count (clear_range w.used (r + needed) (r + current)) valid,
            ap (λ (x : ℕ). tally (check (clear_range w.used (r + needed) x)) 0 window_max_units) e,
            tally-clear_range w.used (r + needed) (current - needed) window_max_units (omega arith)
                tail_run,
          ),
          if_cases (λ x. x ≤ window_max_units) (ltb (r + needed) w.resume_scan_offset)
              (λ t. omega arith) (λ t. ok.2),
        ))
      (λ t. ok)
