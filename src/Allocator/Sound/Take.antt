-- ===== src/Allocator/Sound/Take.antt =====
-- A region carved out of a listed window becomes an allocation.
use siamese.Prelude.{ℕ, ◌+◌, ◌-◌, ◌*◌, ◌≤◌, ◌<◌, ◌≡◌, refl, sym, ap, ◌∙◌, arith, ◌⊎◌, inl, inr}
use siamese.Prelude.{List, ◌∷◌, Bool, false, ltb, ◌==◌, if◌then◌else◌, Bool-cases, some}
use native.Mathlib.Decide.{dec_lt}
use siamese.Prelude.Lists.{length, get_or, count-get_or, put, put_cases}
use siamese.Allocator.BitSet.{check}
use siamese.Allocator.BitSet.Ranges.{check-set_range}
use siamese.Allocator.Window.{window_max_units, find_region, carve}
use siamese.Allocator.Window.Consistent.{
  IsConsistent, IsClear, carve-IsConsistent, find_region-IsClear,
}
use siamese.Allocator.State.{Allocator, AllocationHeader, region_address, unit_size}
use siamese.Allocator.Allocate.{take_region}
use siamese.Allocator.Sound.{
  Region, covers, owners, used_bit, listed, IsRecorded, IsOwned, IsIndexed,
}
use siamese.Allocator.Sound.Moves.{move_last_few_lem}
use siamese.Allocator.Sound.Overlap.{AllRegions-map, AllRegions-zip, OwnsUnits, owns_units}

abbrev pub region : ℕ → ℕ → ℕ → Region
region w start units = record { window = w; start = start; units = units }

-- The state after the headers are written.
abbrev pub taken : ℕ → ℕ → ℕ → Allocator → Allocator
taken units w start a = record a {
  regions = put a.regions (region_address w start) (record { header = w; used_units = units });
  windows = put a.windows w (carve (a.windows w) start units);
}

module _ (live : List Region) (a : Allocator) (own : IsOwned live a) (index : IsIndexed a)
    (w units start : ℕ) (two : 2 ≤ units) (here : 1 ≤ listed a w)
    (found : find_region (a.windows w) units ≡ some start) where
  fresh_run :
      (units ≤ (a.windows w).free_unit_count)
      × (start + units ≤ window_max_units)
      × IsClear (a.windows w).used start units
  fresh_run = find_region-IsClear (a.windows w) (own.consistent w here) units two start found

  carved_bit :
      (j : ℕ)
      → j < window_max_units
      → covers (region w start units) w j + used_bit (a.windows w) j
        ≡ used_bit (carve (a.windows w) start units) j
  unfolding carve
  carved_bit j h =
      ground (arith, check-set_range (a.windows w).used start (start + units) j, fresh_run.2 j)

  taken_owned :
      (v j : ℕ)
      → 1 ≤ listed a v
      → j < window_max_units
      → owners (region w start units ∷ live) v j ≡ used_bit ((taken units w start a).windows v) j
  taken_owned v j l h =
      put_cases (λ x. owners (region w start units ∷ live) v j ≡ used_bit x j) a.windows w
        (carve (a.windows w) start units) v
        (λ e.
          ap (λ (x : ℕ). covers (region w start units) x j + owners live x j) e
          ∙ omega (arith, own.owned w j here h, carved_bit j h))
        (λ t. ground (arith, own.owned v j l h))

  -- The header of another allocation is kept.
  other_header :
      (q : Region)
      → IsRecorded a q
      → OwnsUnits live q
      → (region_address q.window q.start == region_address w start) ≡ false
  other_header q rec units_owned = elim (dec_lt q.window w) [
    | yes h ↦ ground (arith, own.apart q.window w rec.0 here h)
    | no h ↦ elim (dec_lt w q.window) [
      | yes k ↦ ground (arith, own.apart w q.window here rec.0 k, fresh_run.1)
      | no k ↦
          let e : q.window ≡ w = omega arith in
          elim (Bool-cases (q.start == start)) [
            | inr t ↦ ground arith
            | inl t ↦ absurd (
                ground (
                  arith,
                  own.owned q.window q.start rec.0,
                  units_owned q.start,
                  fresh_run.2 q.start,
                  ap (λ (x : ℕ). check (a.windows x).used q.start) e,
                ))
          ]
    ]
  ]

  kept_record :
      (q : Region) → IsRecorded a q → OwnsUnits live q → IsRecorded (taken units w start a) q
  kept_record q rec units_owned =
      let t = other_header q rec units_owned in
      let e : (taken units w start a).regions (region_address q.window q.start)
          ≡ a.regions (region_address q.window q.start) =
        ap
          (λ (b : Bool).
            if b
            then (record { header = w; used_units = units })
            else a.regions (region_address q.window q.start))
          t in
      (
        rec.0,
        rec.1,
        rec.2,
        ap (λ (x : AllocationHeader). x.header) e ∙ rec.3,
        ap (λ (x : AllocationHeader). x.used_units) e ∙ rec.4,
      )

  new_record : IsRecorded (taken units w start a) (region w start units)
  new_record =
      put_cases
        (λ (x : AllocationHeader).
          (1 ≤ listed a w)
          × (2 ≤ units)
          × (start + units ≤ window_max_units)
          × (x.header ≡ w)
          × (x.used_units ≡ units))
        a.regions (region_address w start) (record { header = w; used_units = units })
        (region_address w start) (λ e. (here, two, fresh_run.1, refl, refl))
        (λ t. absurd (ground arith))

  taken-IsOwned : IsOwned (region w start units ∷ live) (taken units w start a)
  taken-IsOwned = record {
    once = own.once;
    consistent = λ v l.
        put_cases IsConsistent a.windows w (carve (a.windows w) start units) v
          (λ e. carve-IsConsistent (a.windows w) (own.consistent w here) units start two found)
          (λ t. own.consistent v l);
    owned = taken_owned;
    nonnull = own.nonnull;
    inside = own.inside;
    apart = own.apart;
    recorded = (
      new_record,
      AllRegions-map (λ q. IsRecorded a q × OwnsUnits live q) (IsRecorded (taken units w start a))
          live (λ q p. kept_record q p.0 p.1)
          (AllRegions-zip (IsRecorded a) (OwnsUnits live) live own.recorded (owns_units live)),
    );
  }

  carved_index :
      (v : ℕ) → ((taken units w start a).windows v).full_list_index ≡ (a.windows v).full_list_index
  unfolding carve
  carved_index v =
      put_cases (λ x. x.full_list_index ≡ (a.windows v).full_list_index) a.windows w
        (carve (a.windows w) start units) v
        (λ e. ap (λ (x : ℕ). (a.windows x).full_list_index) (sym e)) (λ t. refl)

  taken-IsIndexed : IsIndexed (taken units w start a)
  taken-IsIndexed = record {
    outside = λ v l. carved_index v ∙ index.outside v l;
    place = λ i h. carved_index (get_or a.full i 0) ∙ index.place i h;
  }

-- The outcome of an allocation of some units: nothing, or a new allocation beside the others.
abbrev pub IsAllocated : List Region → ℕ → ℕ × Allocator → Type 0
IsAllocated live units (ptr, b) =
    ((ptr ≡ 0) × IsOwned live b × IsIndexed b)
    ⊎ ((r : Region) × (r.units ≡ units)
        × (ptr ≡ region_address r.window r.start + unit_size)
        × IsOwned (r ∷ live) b
        × IsIndexed b)

pub take_region-IsAllocated :
    (live : List Region) (a : Allocator) (units i start : ℕ)
    → IsOwned live a
    → IsIndexed a
    → 2 ≤ units
    → i < length a.preferred
    → find_region (a.windows (get_or a.preferred i 0)) units ≡ some start
    → IsAllocated live units (take_region units i (get_or a.preferred i 0) start a)
unfolding take_region
take_region-IsAllocated live a units i start own index two h found =
    let w = get_or a.preferred i 0 in
    let here : 1 ≤ listed a w = omega (arith, count-get_or a.preferred i h) in
    let moved =
      length a.preferred - 1 - i + (if ltb window_max_units (start + units * 2) then 1 else 0) in
    let (same, own', index') =
      move_last_few_lem moved (taken units w start a) (region w start units ∷ live) (ground arith)
        (taken-IsOwned live a own index w units start two here found)
        (taken-IsIndexed live a own index w units start two here found) in
    inr (region w start units, refl, refl, own', index')
