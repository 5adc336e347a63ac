-- ===== src/Allocator/Sound/Integrity.antt =====
-- IntegrityCheck of PacketAllocator.cpp, against what it is to tell of the lists and their windows.
pub mod Places
mod Windows
use siamese.Prelude.{
  ℕ, zero, suc, ◌+◌, ◌-◌, ◌^◌, ◌≤◌, ◌<◌, ◌≡◌, ◌↔◌, refl, sym, ap, ◌∙◌, arith, u32,
}
use siamese.Prelude.{
  List, [], ◌∷◌, Bool, true, false, not, ◌&&◌, ltb, leb, ◌==◌, and-true, not-true,
}
use siamese.Prelude.{Bool-cases, inl, inr}
use mathlib.Core.Path.{subst}
use siamese.Prelude.Int.{ℤ, pos, negsuc}
use siamese.Prelude.Lists.{length, get_or, count, count-get_or, place_of}
use siamese.Allocator.BitSet.{range_popcount}
use siamese.Allocator.Window.{WindowHeader, window_max_units, not_in_full_list}
use siamese.Allocator.State.{Allocator, preallocated_windows}
use siamese.Allocator.Free.{in_full_list}
use siamese.Allocator.Report.{
  every, unique, absent, counts_agree, check_preferred, is_place, check_full, count_preallocated,
  integrity_check,
}
use siamese.Allocator.Sound.{Region, listed, IsOwned, IsIndexed}
use siamese.Allocator.Sound.Integrity.Windows.{
  HasCounts, HasCounts-counts_agree, Passes, preferred_tests, full_tests,
}
use siamese.Allocator.Sound.Integrity.Places.{
  true_and, not-false, every_lem, every_each, unique_everywhere, unique-once, absent_lem,
  absent-count, preallocated_of, count_preallocated_lem,
}

-- No window is listed twice, none listed is null, each has its counts; the preferred ones are not
-- marked as full and have free units, the full ones know their places; two are preallocated.
pub record IsChecked (a : Allocator) : Type 0 where
  pub once : (w : ℕ) → listed a w ≤ 1
  pub nonnull : (w : ℕ) → 1 ≤ listed a w → 1 ≤ w
  pub counts : (w : ℕ) → 1 ≤ listed a w → HasCounts (a.windows w)
  pub outside : (w : ℕ) → 1 ≤ count w a.preferred → (a.windows w).full_list_index ≡ not_in_full_list
  pub some_free : (w : ℕ) → 1 ≤ count w a.preferred → 1 ≤ (a.windows w).free_unit_count
  pub not_over :
      (w : ℕ) → 1 ≤ count w a.preferred → (a.windows w).free_unit_count ≤ window_max_units
  pub place : (i : ℕ) → i < length a.full → (a.windows (get_or a.full i 0)).full_list_index ≡ pos i
  pub preallocated :
      preallocated_of a.windows a.preferred + preallocated_of a.windows a.full
      ≡ preallocated_windows

module _ (a : Allocator) (ok : IsChecked a) where
  preferred_passes : (i : ℕ) → i < length a.preferred → check_preferred a i ≡ true
  unfolding check_preferred
  preferred_passes i lt =
      let w = get_or a.preferred i 0 in
      let h = a.windows w in
      let counted : 1 ≤ count w a.preferred = count-get_or a.preferred i lt in
      let here : 1 ≤ listed a w = omega arith in
      let out : in_full_list h ≡ false =
        ap (λ (z : ℤ). elim z [ pos n ↦ true | negsuc n ↦ not (n == 0) ]) (ok.outside w counted) in
      true_and
        (true_and
          (true_and
            (true_and
              (true_and (not-false (w == 0) (ground (arith, ok.nonnull w here)))
                (not-false (in_full_list h) out))
              (unique_everywhere a.preferred i (λ v. omega (arith, ok.once v)) lt))
            (ground (arith, ok.some_free w counted)))
          (ground (arith, ok.not_over w counted)))
        (HasCounts-counts_agree h (ok.counts w here))

  full_passes : (i : ℕ) → i < length a.full → check_full a i ≡ true
  unfolding check_full
  full_passes i lt =
      let w = get_or a.full i 0 in
      let h = a.windows w in
      let counted : 1 ≤ count w a.full = count-get_or a.full i lt in
      let here : 1 ≤ listed a w = omega arith in
      let placed : is_place h.full_list_index i ≡ true =
        ap (λ (z : ℤ). is_place z i) (ok.place i lt) ∙ ground arith in
      true_and
        (true_and
          (true_and (true_and (not-false (w == 0) (ground (arith, ok.nonnull w here))) placed)
            (absent_lem w a.preferred (omega (arith, ok.once w, counted))))
          (unique_everywhere a.full i (λ v. omega (arith, ok.once v)) lt))
        (HasCounts-counts_agree h (ok.counts w here))

  IsChecked-integrity_check : integrity_check a ≡ true
  unfolding integrity_check
  IsChecked-integrity_check =
      true_and
        (true_and
          (every_lem (check_preferred a) 0 (length a.preferred)
            (λ i lo h. preferred_passes i (omega arith)))
          (every_lem (check_full a) 0 (length a.full) (λ i lo h. full_passes i (omega arith))))
        (ground (
          arith,
          ok.preallocated,
          count_preallocated_lem a.windows a.full (count_preallocated a.windows a.preferred 0),
          count_preallocated_lem a.windows a.preferred 0,
        ))

module _ (a : Allocator) (passes : integrity_check a ≡ true) where
  passes_parts :
      ((i : ℕ) → i < length a.preferred → check_preferred a i ≡ true)
      × ((i : ℕ) → i < length a.full → check_full a i ≡ true)
      × (preallocated_of a.windows a.preferred + preallocated_of a.windows a.full
          ≡ preallocated_windows)
  unfolding integrity_check
  passes_parts =
      let total =
        count_preallocated a.windows a.full (count_preallocated a.windows a.preferred 0) in
      let (lists, two) = and-true _ (total == preallocated_windows) passes in
      let (preferred, full) = and-true _ (every (check_full a) 0 (length a.full)) lists in
      (
        λ i lt.
            every_each (check_preferred a) 0 (length a.preferred) preferred i (omega arith)
              (omega arith),
        λ i lt. every_each (check_full a) 0 (length a.full) full i (omega arith) (omega arith),
        ground (
          arith,
          count_preallocated_lem a.windows a.full (count_preallocated a.windows a.preferred 0),
          count_preallocated_lem a.windows a.preferred 0,
        ),
      )

  -- What holds of the window at each place of the preferred ones holds of each that is counted.
  of_preferred :
      (P : ℕ → Type 0)
      → ((i : ℕ) → check_preferred a i ≡ true → P (get_or a.preferred i 0))
      → (w : ℕ) → 1 ≤ count w a.preferred
      → P w
  of_preferred P each w counted =
      let (i, lt, e) = place_of w a.preferred counted in subst P e (each i (passes_parts.0 i lt))

  of_full :
      (P : ℕ → Type 0)
      → ((i : ℕ) → check_full a i ≡ true → P (get_or a.full i 0))
      → (w : ℕ) → 1 ≤ count w a.full
      → P w
  of_full P each w counted =
      let (i, lt, e) = place_of w a.full counted in subst P e (each i (passes_parts.1 i lt))

  of_listed : (w : ℕ) → 1 ≤ listed a w → Passes a w
  of_listed w here = elim (Bool-cases (count w a.preferred == 0)) [
    | inl t ↦ of_full (Passes a) (λ i u. (full_tests a i u).0) w (ground arith)
    | inr t ↦ of_preferred (Passes a) (λ i u. (preferred_tests a i u).0) w (ground arith)
  ]

  listed_once : (w : ℕ) → listed a w ≤ 1
  listed_once w =
      let front =
        unique-once a.preferred (λ i lt. (preferred_tests a i (passes_parts.0 i lt)).4) w in
      let back = unique-once a.full (λ i lt. (full_tests a i (passes_parts.1 i lt)).3) w in
      elim (Bool-cases (count w a.full == 0)) [
        | inl t ↦ ground (arith, front)
        | inr t ↦
            let away : count w a.preferred ≡ 0 =
              of_full (λ (v : ℕ). count v a.preferred ≡ 0) (λ i u. (full_tests a i u).2) w
                (ground arith) in
            omega (arith, away, back)
      ]

  integrity_check-IsChecked : IsChecked a
  integrity_check-IsChecked = record {
    once = listed_once;
    nonnull = λ w here. (of_listed w here).0;
    counts = λ w here. (of_listed w here).1;
    outside =
        of_preferred (λ w. (a.windows w).full_list_index ≡ not_in_full_list)
          (λ i u. (preferred_tests a i u).1);
    some_free =
        of_preferred (λ w. 1 ≤ (a.windows w).free_unit_count) (λ i u. (preferred_tests a i u).2);
    not_over =
        of_preferred (λ w. (a.windows w).free_unit_count ≤ window_max_units)
          (λ i u. (preferred_tests a i u).3);
    place = λ i lt. (full_tests a i (passes_parts.1 i lt)).1;
    preallocated = passes_parts.2;
  }

-- IntegrityCheck passes if and only if no window is listed twice, no listed window is null, the scan
-- offset of each lies in it and the count of its used units is that of the window less its free ones
-- in 32 bits, each preferred window is marked as in no full list and has between 1 and 2048 free
-- units, each window of the full list knows its place there, and two of the listed windows are
-- marked as preallocated.
pub integrity_check_iff : (a : Allocator) → (integrity_check a ≡ true) ↔ IsChecked a
integrity_check_iff a = (integrity_check-IsChecked a, IsChecked-integrity_check a)

-- A sound state passes, where each preferred window has a free unit and the lists hold the two
-- preallocated windows.
pub IsOwned-IsChecked :
    (live : List Region) (a : Allocator)
    → IsOwned live a
    → IsIndexed a
    → ((w : ℕ) → 1 ≤ count w a.preferred → 1 ≤ (a.windows w).free_unit_count)
    → preallocated_of a.windows a.preferred + preallocated_of a.windows a.full
      ≡ preallocated_windows
    → IsChecked a
IsOwned-IsChecked live a own index some_free two = record {
  once = own.once;
  nonnull = own.nonnull;
  counts = λ w here. let (words, sum, resume) = own.consistent w here in (resume, ground arith);
  outside = index.outside;
  some_free = some_free;
  not_over = λ w counted. ground (arith, (own.consistent w (omega arith)).1);
  place = index.place;
  preallocated = two;
}
