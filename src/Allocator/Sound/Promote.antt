-- ===== src/Allocator/Sound/Promote.antt =====
-- A window that leaves the full list for the preferred one keeps every ownership.
use siamese.Prelude.{ℕ, ◌+◌, ◌-◌, ◌≤◌, ◌<◌, ◌≡◌, refl, sym, ap, ◌∙◌, arith, inl, inr}
use siamese.Prelude.{
  [], ◌∷◌, ◌++◌, Bool, true, false, not, ◌&&◌, ltb, leb, ◌==◌, if◌then◌else◌, if_cases, Bool-cases,
}
use native.Mathlib.Decide.{dec_lt}
use siamese.Prelude.Int.{ℤ, pos, negsuc, pos_part}
use siamese.Prelude.Lists.{
  length, get_or, set, take, put, put_cases, count, count-append, count-set, count_last,
  count-get_or, length-set, length-take, get_or-set, get_or-take, place_of,
}
use siamese.Allocator.Window.{not_in_full_list}
use siamese.Allocator.State.{Allocator, preferred_threshold_units}
use siamese.Allocator.Free.{in_full_list, leave_full_list, promote}
use siamese.Allocator.Sound.{listed, IsIndexed}
use siamese.Allocator.Sound.Same.{SameUse}
use siamese.Allocator.Sound.Moves.{reindexed_same}

abbrev Kept : Allocator → Allocator → Type 0
Kept a b = SameUse a b × IsIndexed b

module _ (a : Allocator) (once : (v : ℕ) → listed a v ≤ 1) (index : IsIndexed a) (w : ℕ) where
  -- Its windows are scanned from the front.
  abbrev rescanned : Allocator
  rescanned = record a {
    windows = put a.windows w (record (a.windows w) { resume_scan_offset = 0 });
  }

  rescanned_same :
      (v : ℕ)
      → ((rescanned.windows v).used ≡ (a.windows v).used)
        × ((rescanned.windows v).free_unit_count ≡ (a.windows v).free_unit_count)
        × ((rescanned.windows v).resume_scan_offset ≤ (a.windows v).resume_scan_offset)
        × ((rescanned.windows v).full_list_index ≡ (a.windows v).full_list_index)
  rescanned_same v =
      put_cases
        (λ h.
          (h.used ≡ (a.windows v).used)
          × (h.free_unit_count ≡ (a.windows v).free_unit_count)
          × (h.resume_scan_offset ≤ (a.windows v).resume_scan_offset)
          × (h.full_list_index ≡ (a.windows v).full_list_index))
        a.windows w (record (a.windows w) { resume_scan_offset = 0 }) v
        (λ e. (
          ap (λ (x : ℕ). (a.windows x).used) (sym e),
          ap (λ (x : ℕ). (a.windows x).free_unit_count) (sym e),
          omega arith,
          ap (λ (x : ℕ). (a.windows x).full_list_index) (sym e),
        ))
        (λ t. (refl, refl, omega arith, refl))

  module _ (i : ℕ) (lt : i < length a.full) (at : get_or a.full i 0 ≡ w) where
    abbrev m : ℕ
    m = length a.full - 1

    abbrev replacement : ℕ
    replacement = get_or a.full m 0

    place_index :
        (k : ℕ)
        → k < length a.full
        → (rescanned.windows (get_or a.full k 0)).full_list_index ≡ pos k
    place_index k h = (rescanned_same (get_or a.full k 0)).3 ∙ index.place k h

    -- Two places of the full list hold different windows.
    places_differ :
        (j k : ℕ)
        → j < length a.full
        → k < length a.full
        → (j == k) ≡ false
        → (get_or a.full j 0 == get_or a.full k 0) ≡ false
    places_differ j k hj hk t = ground (
      arith,
      ap (λ (x : ℕ). pos_part (a.windows x).full_list_index) {x = get_or a.full j 0}
          {y = get_or a.full k 0},
      ap pos_part (index.place j hj),
      ap pos_part (index.place k hk),
    )

    -- The window entered into the preferred list.
    abbrev finish : Allocator → Allocator
    finish s = record s {
      full = take m s.full;
      windows = put s.windows w (record (s.windows w) { full_list_index = not_in_full_list });
      preferred = s.preferred ++ w ∷ [];
    }

    abbrev swapped : Allocator
    swapped = record rescanned {
      full = set a.full i replacement;
      windows =
          put rescanned.windows replacement
            (record (rescanned.windows replacement) { full_list_index = pos i });
    }

    w_listed : 1 ≤ count w a.full
    w_listed = omega (arith, count-get_or a.full i lt, ap (λ (x : ℕ). count x a.full) at)

    swapped_windows :
        (v : ℕ)
        → ((swapped.windows v).used ≡ (a.windows v).used)
          × ((swapped.windows v).free_unit_count ≡ (a.windows v).free_unit_count)
          × ((swapped.windows v).resume_scan_offset ≤ (a.windows v).resume_scan_offset)
    swapped_windows v =
        let (u, f, r) = reindexed_same rescanned.windows replacement (pos i) v in
        let (u', f', r', x) = rescanned_same v in (u ∙ u', f ∙ f', omega (arith, r, r'))

    -- Both ways to shorten the list take out the window, once.
    shortened_count :
        (v : ℕ) → i < m → count v (take m swapped.full) + (if w == v then 1 else 0) ≡ count v a.full
    shortened_count v h = ground (
      arith,
      count-set v a.full i replacement lt,
      count_last v m (set a.full i replacement) (omega (arith, length-set a.full i replacement)),
      get_or-set a.full i m replacement lt,
      ap (λ (x : ℕ). x == v) at,
    )

    cut_count :
        (v : ℕ) → i ≡ m → count v (take m a.full) + (if w == v then 1 else 0) ≡ count v a.full
    cut_count v e =
        ground (arith, count_last v m a.full (omega arith), ap (λ (k : ℕ). get_or a.full k 0) e, at)

    finish-SameUse :
        (s : Allocator)
        → ((v : ℕ) → count v (take m s.full) + (if w == v then 1 else 0) ≡ count v a.full)
        → s.preferred ≡ a.preferred
        → ((v : ℕ)
            → ((s.windows v).used ≡ (a.windows v).used)
              × ((s.windows v).free_unit_count ≡ (a.windows v).free_unit_count)
              × ((s.windows v).resume_scan_offset ≤ (a.windows v).resume_scan_offset))
        → ((r : ℕ) → s.regions r ≡ a.regions r)
        → s.system ≡ a.system
        → SameUse a (finish s)
    finish-SameUse s counted kept same regions system = record {
      listed_same =
          λ v. omega (arith, counted v, count-append v s.preferred (w ∷ []), ap (count v) kept);
      used_same = λ v. (reindexed_same s.windows w not_in_full_list v).0 ∙ (same v).0;
      free_same = λ v. (reindexed_same s.windows w not_in_full_list v).1 ∙ (same v).1;
      resume_same =
          λ v. omega (arith, (reindexed_same s.windows w not_in_full_list v).2, (same v).2);
      regions_same = regions;
      system_same = system;
    }

    finish_index :
        (s : Allocator) (v : ℕ)
        → (v == w) ≡ false
        → ((finish s).windows v).full_list_index ≡ (s.windows v).full_list_index
    finish_index s v t =
        ap
          (λ (b : Bool).
            (if b
              then (record (s.windows w) { full_list_index = not_in_full_list })
              else s.windows v).full_list_index)
          t

    finish_own_index :
        (s : Allocator) (v : ℕ) → v ≡ w → ((finish s).windows v).full_list_index ≡ not_in_full_list
    finish_own_index s v e =
        let t : (v == w) ≡ true = ground arith in
        ap
          (λ (b : Bool).
            (if b
              then (record (s.windows w) { full_list_index = not_in_full_list })
              else s.windows v).full_list_index)
          t

    swapped_index :
        (v : ℕ)
        → (v == replacement) ≡ false
        → (swapped.windows v).full_list_index ≡ (rescanned.windows v).full_list_index
    swapped_index v t =
        ap
          (λ (b : Bool).
            (if b
              then (record (rescanned.windows replacement) { full_list_index = pos i })
              else rescanned.windows v).full_list_index)
          t

    swapped_own_index : (v : ℕ) → v ≡ replacement → (swapped.windows v).full_list_index ≡ pos i
    swapped_own_index v e =
        let t : (v == replacement) ≡ true = ground arith in
        ap
          (λ (b : Bool).
            (if b
              then (record (rescanned.windows replacement) { full_list_index = pos i })
              else rescanned.windows v).full_list_index)
          t

    -- A window of the preferred list is none of the full list.
    preferred_other :
        (v k : ℕ) → 1 ≤ count v a.preferred → k < length a.full → (v == get_or a.full k 0) ≡ false
    preferred_other v k l h = ground (
      arith,
      once v,
      count-get_or a.full k h,
      ap (λ (x : ℕ). count x a.full) {x = v} {y = get_or a.full k 0},
    )

    kept_preferred :
        (s : Allocator)
        → s.preferred ≡ a.preferred
        → ((v : ℕ)
            → 1 ≤ count v a.preferred
            → (s.windows v).full_list_index ≡ (rescanned.windows v).full_list_index)
        → (v : ℕ) → 1 ≤ count v (finish s).preferred
        → ((finish s).windows v).full_list_index ≡ not_in_full_list
    kept_preferred s kept same v l = elim (Bool-cases (v == w)) [
      | inl t ↦ finish_own_index s v (ground arith)
      | inr t ↦
          let p : 1 ≤ count v a.preferred =
            ground (arith, count-append v s.preferred (w ∷ []), ap (count v) kept) in
          finish_index s v t ∙ same v p ∙ (rescanned_same v).3 ∙ index.outside v p
    ]

    not_w : (k : ℕ) → k < length a.full → (k == i) ≡ false → (get_or a.full k 0 == w) ≡ false
    not_w k h t = ap (λ (x : ℕ). get_or a.full k 0 == x) (sym at) ∙ places_differ k i h lt t

    swapped-Kept : i < m → Kept a (finish swapped)
    swapped-Kept h = (
      finish-SameUse swapped (λ v. shortened_count v h) refl swapped_windows (λ r. refl) refl,
      record {
        outside =
            kept_preferred swapped refl
              (λ v p. swapped_index v (preferred_other v m p (omega arith)));
        place = λ k l.
            let short : k < m = omega (
              arith,
              length-take m swapped.full (omega (arith, length-set a.full i replacement)),
              l,
            ) in
            let e : get_or (take m swapped.full) k 0
                ≡ (if k == i then replacement else get_or a.full k 0) =
              get_or-take m k swapped.full 0 short ∙ get_or-set a.full i k replacement lt in
            elim (Bool-cases (k == i)) [
              | inl t ↦
                  let v : get_or (take m swapped.full) k 0 ≡ replacement = ground (arith, e) in
                  let other : (get_or (take m swapped.full) k 0 == w) ≡ false =
                    ap (λ (x : ℕ). x == w) v ∙ not_w m (omega arith) (ground arith) in
                  finish_index swapped (get_or (take m swapped.full) k 0) other
                  ∙ swapped_own_index (get_or (take m swapped.full) k 0) v
                  ∙ ap pos (let q : i ≡ k = ground arith in q)
              | inr t ↦
                  let v : get_or (take m swapped.full) k 0 ≡ get_or a.full k 0 =
                    ground (arith, e) in
                  let other : (get_or (take m swapped.full) k 0 == w) ≡ false =
                    ap (λ (x : ℕ). x == w) v ∙ not_w k (omega arith) t in
                  let unmoved : (get_or (take m swapped.full) k 0 == replacement) ≡ false =
                    ap (λ (x : ℕ). x == replacement) v
                    ∙ places_differ k m (omega arith) (omega arith) (ground arith) in
                  finish_index swapped (get_or (take m swapped.full) k 0) other
                  ∙ swapped_index (get_or (take m swapped.full) k 0) unmoved
                  ∙ ap (λ (x : ℕ). (rescanned.windows x).full_list_index) v
                  ∙ place_index k (omega arith)
            ];
      },
    )

    cut-Kept : i ≡ m → Kept a (finish rescanned)
    cut-Kept q = (
      finish-SameUse rescanned (λ v. cut_count v q) refl
          (λ v. ((rescanned_same v).0, (rescanned_same v).1, (rescanned_same v).2)) (λ r. refl)
          refl,
      record {
        outside = kept_preferred rescanned refl (λ v p. refl);
        place = λ k l.
            let short : k < m = omega (arith, length-take m a.full (omega arith), l) in
            let v : get_or (take m a.full) k 0 ≡ get_or a.full k 0 =
              get_or-take m k a.full 0 short in
            let other : (get_or (take m a.full) k 0 == w) ≡ false =
              ap (λ (x : ℕ). x == w) v ∙ not_w k (omega arith) (ground arith) in
            finish_index rescanned (get_or (take m a.full) k 0) other
            ∙ ap (λ (x : ℕ). (rescanned.windows x).full_list_index) v
            ∙ place_index k (omega arith);
      },
    )

and_right : (x y : Bool) → (x && y) ≡ true → y ≡ true
and_right true y h = h
and_right false y h = cc

same_use : (a : Allocator) → SameUse a a
same_use a = record {
  listed_same = λ w. refl;
  used_same = λ w. refl;
  free_same = λ w. refl;
  resume_same = λ w. omega arith;
  regions_same = λ r. refl;
  system_same = refl;
}

pub promote-Kept :
    (a : Allocator)
    → ((v : ℕ) → listed a v ≤ 1)
    → IsIndexed a
    → (w : ℕ) → 1 ≤ listed a w
    → SameUse a (promote w a) × IsIndexed (promote w a)
unfolding promote leave_full_list
promote-Kept a once index w here =
    let h = a.windows w in
    if_cases (Kept a) (leb preferred_threshold_units h.free_unit_count && in_full_list h)
      (λ t.
        let in_full : 1 ≤ count w a.full = elim (dec_lt 0 (count w a.preferred)) [
          | no l ↦ omega arith
          | yes l ↦
              let out : in_full_list h ≡ false =
                ap (λ (z : ℤ). elim z [ pos n ↦ true | negsuc n ↦ not (n == 0) ])
                  (index.outside w l) in
              cc (and_right (leb preferred_threshold_units h.free_unit_count) (in_full_list h) t)
        ] in
        let (k, lt, at) = place_of w a.full in_full in
        let i : ℕ = pos_part ((rescanned a once index w).windows w).full_list_index in
        let e : i ≡ k =
          ap pos_part ((rescanned_same a once index w w).3)
          ∙ ap (λ (x : ℕ). pos_part (a.windows x).full_list_index) (sym at)
          ∙ ap pos_part (index.place k lt) in
        let lt' : i < length a.full = omega arith in
        let at' : get_or a.full i 0 ≡ w = ap (λ (x : ℕ). get_or a.full x 0) e ∙ at in
        if_cases (λ s. Kept a (finish a once index w i lt' at' s)) (ltb i (length a.full - 1))
          (λ c. swapped-Kept a once index w i lt' at' (ground arith))
          (λ c. cut-Kept a once index w i lt' at' (ground arith)))
      (λ t. (same_use a, index))
