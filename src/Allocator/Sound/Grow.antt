-- ===== src/Allocator/Sound/Grow.antt =====
-- A new window, and the allocation of its first units.
use siamese.Prelude.{ℕ, ◌+◌, ◌≤◌, ◌<◌, ◌≡◌, refl, sym, ap, ◌∙◌, arith, ◌⊎◌, inl, inr}
use siamese.Prelude.{
  List, [], ◌∷◌, ◌++◌, Bool, true, false, ◌==◌, if◌then◌else◌, Bool-cases, if_cases,
}
use mathlib.Core.Path.{subst}
use native.Mathlib.Decide.{dec_lt}
use siamese.Prelude.Lists.{get_or, count, count-get_or, count-append, put, put_cases}
use siamese.Allocator.BitSet.{clear_all}
use siamese.Allocator.BitSet.Ranges.{check-set_range}
use siamese.Allocator.BitSet.Members.{check-clear_all}
use siamese.Allocator.System.{System, Calloc, simd_safe_allocate}
use siamese.Allocator.System.Blocks.{IsInside, IsFresh, simd_safe_allocate-IsAligned}
use siamese.Allocator.Window.{window_max_units, new_window, not_in_full_list}
use siamese.Allocator.Window.Consistent.{IsConsistent}
use siamese.Allocator.Window.Fresh.{fresh-IsConsistent}
use siamese.Allocator.State.{
  Allocator, AllocationHeader, window_size_bytes, window_header_bytes, region_address,
}
use siamese.Allocator.Allocate.{allocate_from_new_window, zero_words}
use siamese.Allocator.Sound.{
  Region, covers, owners, used_bit, listed, AllRegions, IsRecorded, IsOwned, IsIndexed,
}
use siamese.Allocator.Sound.Overlap.{AllRegions-map, owners_elsewhere}
use siamese.Allocator.Sound.Take.{IsAllocated, region}

-- The state with a window w added, in the system that its block was taken from.
abbrev grown : ℕ → ℕ → System → Allocator → Allocator
grown units w system a = record a {
  system = system;
  windows = put a.windows w (new_window zero_words units);
  preferred = a.preferred ++ w ∷ [];
  regions = put a.regions (w + window_header_bytes) (record { header = w; used_units = units });
}

-- A place for a window that no listed window meets.
record IsVacant (a : Allocator) (w : ℕ) (system : System) : Type 0 where
  nonnull : 1 ≤ w
  unmet : (v : ℕ) → 1 ≤ listed a v → (v + window_size_bytes ≤ w) ⊎ (w + window_size_bytes ≤ v)
  inside_new : IsInside w window_size_bytes system.blocks
  inside_old :
      (v : ℕ)
      → IsInside v window_size_bytes (a.system).blocks
      → IsInside v window_size_bytes system.blocks

module _ (live : List Region) (a : Allocator) (own : IsOwned live a) (index : IsIndexed a)
    (units w : ℕ) (system : System) (two : 2 ≤ units) (fit : units ≤ window_max_units)
    (vacant : IsVacant a w system) where
  unlisted : listed a w ≡ 0
  unlisted = elim (dec_lt 0 (listed a w)) [
    | no h ↦ omega arith
    | yes h ↦ elim (vacant.unmet w h) [
      | inl l ↦ absurd (omega arith)
      | inr l ↦ absurd (omega arith)
    ]
  ]

  new_listed : (v : ℕ) → listed (grown units w system a) v ≡ listed a v + (if w == v then 1 else 0)
  new_listed v = omega (arith, count-append v a.preferred (w ∷ []))

  -- A window of the grown state is the new one or an old one.
  old_or_new :
      (v : ℕ)
      → 1 ≤ listed (grown units w system a) v
      → (v ≡ w) ⊎ ((1 ≤ listed a v) × ((v == w) ≡ false))
  old_or_new v l = elim (Bool-cases (v == w)) [
    | inl t ↦ inl (ground arith)
    | inr t ↦ inr (ground (arith, new_listed v), t)
  ]

  elsewhere : AllRegions (λ r. (r.window == w) ≡ false) live
  elsewhere =
      AllRegions-map (IsRecorded a) (λ r. (r.window == w) ≡ false) live
        (λ r rec. elim (vacant.unmet r.window rec.0) [
          | inl l ↦ ground arith
          | inr l ↦ ground arith
        ])
        own.recorded

  new_bit :
      (j : ℕ)
      → j < window_max_units
      → covers (region w 0 units) w j ≡ used_bit (new_window zero_words units) j
  unfolding new_window
  new_bit j h = ground (
    arith,
    check-set_range (clear_all window_max_units zero_words) 0 units j,
    check-clear_all window_max_units zero_words j h,
  )

  grown_owned :
      (v j : ℕ)
      → 1 ≤ listed (grown units w system a) v
      → j < window_max_units
      → owners (region w 0 units ∷ live) v j ≡ used_bit ((grown units w system a).windows v) j
  grown_owned v j l h =
      put_cases (λ x. owners (region w 0 units ∷ live) v j ≡ used_bit x j) a.windows w
        (new_window zero_words units) v
        (λ e.
          ap (λ (x : ℕ). covers (region w 0 units) x j + owners live x j) e
          ∙ omega (arith, new_bit j h, owners_elsewhere live w j elsewhere))
        (λ t. elim (old_or_new v l) [
          | inl e ↦ absurd (ground arith)
          | inr (k, u) ↦ ground (arith, own.owned v j k h)
        ])

  kept_record : (q : Region) → IsRecorded a q → IsRecorded (grown units w system a) q
  kept_record q rec =
      let t : (region_address q.window q.start == w + window_header_bytes) ≡ false =
        elim (vacant.unmet q.window rec.0) [
          | inl l ↦ ground (arith, rec.2)
          | inr l ↦ ground (arith, rec.2)
        ] in
      let e : (grown units w system a).regions (region_address q.window q.start)
          ≡ a.regions (region_address q.window q.start) =
        ap
          (λ (b : Bool).
            if b
            then (record { header = w; used_units = units })
            else a.regions (region_address q.window q.start))
          t in
      (
        omega (arith, rec.0, new_listed q.window),
        rec.1,
        rec.2,
        ap (λ (x : AllocationHeader). x.header) e ∙ rec.3,
        ap (λ (x : AllocationHeader). x.used_units) e ∙ rec.4,
      )

  new_record : IsRecorded (grown units w system a) (region w 0 units)
  new_record =
      put_cases
        (λ (x : AllocationHeader).
          (1 ≤ listed (grown units w system a) w)
          × (2 ≤ units)
          × (0 + units ≤ window_max_units)
          × (x.header ≡ w)
          × (x.used_units ≡ units))
        a.regions (w + window_header_bytes) (record { header = w; used_units = units })
        (region_address w 0) (λ e. (ground (arith, new_listed w), two, omega arith, refl, refl))
        (λ t. absurd (ground arith))

  grown-apart :
      (u v : ℕ)
      → 1 ≤ listed (grown units w system a) u
      → 1 ≤ listed (grown units w system a) v
      → u < v
      → u + window_size_bytes ≤ v
  grown-apart u v lu lv h = elim (old_or_new u lu) [
    | inl e ↦ elim (old_or_new v lv) [
      | inl f ↦ absurd (omega arith)
      | inr (kv, t) ↦ elim (vacant.unmet v kv) [
        | inl l ↦ absurd (omega arith)
        | inr l ↦ omega arith
      ]
    ]
    | inr (ku, s) ↦ elim (old_or_new v lv) [
      | inl f ↦ elim (vacant.unmet u ku) [ inl l ↦ omega arith | inr l ↦ absurd (omega arith) ]
      | inr (kv, t) ↦ own.apart u v ku kv h
    ]
  ]

  grown-IsOwned : IsOwned (region w 0 units ∷ live) (grown units w system a)
  grown-IsOwned = record {
    once = λ v. elim (Bool-cases (w == v)) [
      | inl t ↦
          ground (arith, new_listed v, unlisted, ap (listed a) (let e : v ≡ w = ground arith in e))
      | inr t ↦ ground (arith, new_listed v, own.once v)
    ];
    consistent = λ v l.
        put_cases IsConsistent a.windows w (new_window zero_words units) v
          (λ e. (fresh-IsConsistent zero_words (λ i. omega arith) units fit).1)
          (λ t. elim (old_or_new v l) [
            | inl e ↦ absurd (ground arith)
            | inr (k, u) ↦ own.consistent v k
          ]);
    owned = grown_owned;
    nonnull = λ v l. elim (old_or_new v l) [
      | inl e ↦ omega (arith, vacant.nonnull)
      | inr (k, u) ↦ own.nonnull v k
    ];
    inside = λ v l. elim (old_or_new v l) [
      | inl e ↦
          subst (λ (x : ℕ). IsInside x window_size_bytes system.blocks) (sym e) vacant.inside_new
      | inr (k, u) ↦ vacant.inside_old v (own.inside v k)
    ];
    apart = grown-apart;
    recorded = (
      new_record,
      AllRegions-map (IsRecorded a) (IsRecorded (grown units w system a)) live kept_record
          own.recorded,
    );
  }

  old_index :
      (v : ℕ)
      → (v == w) ≡ false
      → ((grown units w system a).windows v).full_list_index ≡ (a.windows v).full_list_index
  old_index v t =
      ap (λ (b : Bool). (if b then new_window zero_words units else a.windows v).full_list_index) t

  new_index :
      (v : ℕ) → v ≡ w → ((grown units w system a).windows v).full_list_index ≡ not_in_full_list
  unfolding new_window
  new_index v e =
      let t : (v == w) ≡ true = ground arith in
      ap (λ (b : Bool). (if b then new_window zero_words units else a.windows v).full_list_index) t

  grown-IsIndexed : IsIndexed (grown units w system a)
  grown-IsIndexed = record {
    outside = λ v l. elim (Bool-cases (v == w)) [
      | inl t ↦ new_index v (ground arith)
      | inr t ↦
          old_index v t ∙ index.outside v (ground (arith, count-append v a.preferred (w ∷ [])))
    ];
    place = λ i h.
        let v = get_or a.full i 0 in
        let t : (v == w) ≡ false = ground (
          arith,
          count-get_or a.full i h,
          unlisted,
          ap (λ (x : ℕ). count x a.full) {x = v} {y = w},
        ) in
        old_index v t ∙ index.place i h;
  }

-- A new window that cannot be had leaves the ownership as it was.
other_system :
    (live : List Region) (a : Allocator) (system : System)
    → system ≡ a.system
    → IsOwned live a
    → IsOwned live (record a { system = system })
other_system live a system e own =
    subst (λ (s : System). IsOwned live (record a { system = s })) (sym e) own

pub allocate_from_new_window-IsAllocated :
    (calloc : Calloc)
    → IsFresh calloc
    → (live : List Region) (a : Allocator) (units : ℕ) → IsOwned live a
    → IsIndexed a
    → 2 ≤ units
    → units ≤ window_max_units
    → IsAllocated live units (allocate_from_new_window calloc units a)
unfolding allocate_from_new_window
allocate_from_new_window-IsAllocated calloc fresh live a units own index two fit =
    let result = simd_safe_allocate calloc a.system window_size_bytes in
    let P = IsAllocated live units in
    elim (simd_safe_allocate-IsAligned calloc fresh a.system window_size_bytes) [
      | inl (null, same) ↦
          if_cases P (result.0 == 0)
            (λ t. inl (
              refl,
              other_system live a result.1 same own,
              record { outside = index.outside; place = index.place },
            ))
            (λ t. absurd (ground arith))
      | inr (positive, aligned, unmet, new_inside, old_inside) ↦
          let vacant : IsVacant a result.0 result.1 = record {
            nonnull = positive;
            unmet = λ v l. unmet v window_size_bytes (own.inside v l);
            inside_new = new_inside;
            inside_old = λ v i. old_inside v window_size_bytes i;
          } in
          if_cases P (result.0 == 0) (λ t. absurd (ground arith))
            (λ t. inr (
              region result.0 0 units,
              refl,
              omega arith,
              grown-IsOwned live a own index units result.0 result.1 two fit vacant,
              grown-IsIndexed live a own index units result.0 result.1 two fit vacant,
            ))
    ]
