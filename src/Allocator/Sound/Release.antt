-- ===== src/Allocator/Sound/Release.antt =====
-- Free and Shrink give units back to the window that they came from.
use siamese.Prelude.{ℕ, ◌+◌, ◌-◌, ◌≤◌, ◌<◌, ◌≡◌, refl, sym, ap, ◌∙◌, arith, inl, inr}
use siamese.Prelude.{List, ◌∷◌, Bool, false, ltb, ◌==◌, if◌then◌else◌, if_cases}
use mathlib.Core.Path.{subst}
use siamese.Prelude.Lists.{get_or, put, put_cases}
use siamese.Allocator.BitSet.Ranges.{check-clear_range}
use siamese.Allocator.Window.{WindowHeader, window_max_units, release, give_back}
use siamese.Allocator.Window.Consistent.{
  IsConsistent, IsUsed, release-IsConsistent, give_back-IsConsistent,
}
use siamese.Allocator.State.{
  Allocator, AllocationHeader, region_address, unit_size, unit_start, units_of,
}
use siamese.Allocator.Free.{free, shrink, mark_freed, promote}
use siamese.Allocator.Sound.{
  Region, covers, owners, used_bit, listed, AllRegions, IsRecorded, IsOwned, IsIndexed,
}
use siamese.Allocator.Sound.Same.{IsOwned-same}
use siamese.Allocator.Sound.Overlap.{AllRegions-map, AllRegions-zip, IsDisjoint, live-IsDisjoint}
use siamese.Allocator.Sound.Promote.{promote-Kept}

-- A window and an allocation header replaced.
abbrev replaced_in : Allocator → ℕ → WindowHeader → ℕ → AllocationHeader → Allocator
replaced_in a w h region header = record a {
  windows = put a.windows w h;
  regions = put a.regions region header;
}

-- What the new header of the window of an allocation must satisfy, for the allocations `rest` that
-- are left in place of it.
record IsGivenBack (r : Region) (live rest : List Region) (a : Allocator) (h : WindowHeader)
    : Type 0 where
  consistent : IsConsistent h
  index : h.full_list_index ≡ (a.windows r.window).full_list_index
  same_elsewhere : (v j : ℕ) → (v == r.window) ≡ false → owners rest v j ≡ owners (r ∷ live) v j
  bits : (j : ℕ) → j < window_max_units → owners rest r.window j ≡ used_bit h j

module _ (r : Region) (live : List Region) (a : Allocator) (own : IsOwned (r ∷ live) a)
    (index : IsIndexed a) where
  abbrev address : ℕ
  address = region_address r.window r.start

  module _ (rest : List Region) (h : WindowHeader) (header : AllocationHeader)
      (back : IsGivenBack r live rest a h) where
    abbrev after : Allocator
    after = replaced_in a r.window h address header

    after_record : (q : Region) → IsRecorded a q → IsDisjoint r q → IsRecorded after q
    after_record q rec apart =
        let two = own.recorded.0.1 in
        let t : (region_address q.window q.start == address) ≡ false = elim apart [
          | inl l ↦ ground (arith, rec.1)
          | inr l ↦ ground (arith, rec.1)
        ] in
        let e : after.regions (region_address q.window q.start)
            ≡ a.regions (region_address q.window q.start) =
          ap (λ (b : Bool). if b then header else a.regions (region_address q.window q.start)) t in
        (
          rec.0,
          rec.1,
          rec.2,
          ap (λ (x : AllocationHeader). x.header) e ∙ rec.3,
          ap (λ (x : AllocationHeader). x.used_units) e ∙ rec.4,
        )

    after_records : AllRegions (IsRecorded after) live
    after_records =
        AllRegions-map (λ q. IsRecorded a q × IsDisjoint r q) (IsRecorded after) live
          (λ q p. after_record q p.0 p.1)
          (AllRegions-zip (IsRecorded a) (IsDisjoint r) live own.recorded.1
            (live-IsDisjoint r live a own))

    after-IsOwned : AllRegions (IsRecorded after) rest → IsOwned rest after
    after-IsOwned records = record {
      once = own.once;
      consistent = λ v l.
          put_cases IsConsistent a.windows r.window h v (λ e. back.consistent)
            (λ t. own.consistent v l);
      owned = λ v j l k.
          put_cases (λ x. owners rest v j ≡ used_bit x j) a.windows r.window h v
            (λ e. ap (λ (x : ℕ). owners rest x j) e ∙ back.bits j k)
            (λ t. back.same_elsewhere v j t ∙ own.owned v j l k);
      nonnull = own.nonnull;
      inside = own.inside;
      apart = own.apart;
      recorded = records;
    }

    after_index : (v : ℕ) → (after.windows v).full_list_index ≡ (a.windows v).full_list_index
    after_index v =
        put_cases (λ x. x.full_list_index ≡ (a.windows v).full_list_index) a.windows r.window h v
          (λ e. back.index ∙ ap (λ (x : ℕ). (a.windows x).full_list_index) (sym e)) (λ t. refl)

    after-IsIndexed : IsIndexed after
    after-IsIndexed = record {
      outside = λ v l. after_index v ∙ index.outside v l;
      place = λ i k. after_index (get_or a.full i 0) ∙ index.place i k;
    }

  -- The units of an allocation are in use.
  region-IsUsed : IsUsed (a.windows r.window).used r.start r.units
  region-IsUsed j lo h = ground (arith, own.owned r.window j own.recorded.0.0, own.recorded.0.2)

  own_bit :
      (j : ℕ)
      → j < window_max_units
      → covers r r.window j + owners live r.window j ≡ used_bit (a.windows r.window) j
  own_bit j h = own.owned r.window j own.recorded.0.0 h

  free-IsGivenBack : IsGivenBack r live live a (release (a.windows r.window) r.start r.units)
  unfolding release
  free-IsGivenBack = record {
    consistent =
        release-IsConsistent (a.windows r.window) (own.consistent r.window own.recorded.0.0) r.start
          r.units own.recorded.0.2 region-IsUsed;
    index = refl;
    same_elsewhere = λ v j t. ground arith;
    bits = λ j h. ground (
      arith,
      own_bit j h,
      check-clear_range (a.windows r.window).used r.start (r.start + r.units) j,
    );
  }

  abbrev shorter : ℕ → Region
  shorter needed = record r { units = needed }

  shrink-IsGivenBack :
      (needed : ℕ)
      → 2 ≤ needed
      → needed < r.units
      → IsGivenBack r live
          (shorter needed ∷ live)
          a
          (give_back (a.windows r.window) r.start needed r.units)
  unfolding give_back
  shrink-IsGivenBack needed two less = record {
    consistent =
        give_back-IsConsistent (a.windows r.window) (own.consistent r.window own.recorded.0.0)
          r.start needed r.units own.recorded.0.2 region-IsUsed;
    index =
        if_cases (λ (h : WindowHeader). h.full_list_index ≡ (a.windows r.window).full_list_index)
          (ltb needed r.units) (λ t. refl) (λ t. refl);
    same_elsewhere = λ v j t. ground arith;
    bits = λ j h.
        if_cases (λ (x : WindowHeader). owners (shorter needed ∷ live) r.window j ≡ used_bit x j)
          (ltb needed r.units)
          (λ t. ground (
            arith,
            own_bit j h,
            check-clear_range (a.windows r.window).used (r.start + needed) (r.start + r.units) j,
          ))
          (λ t. absurd (ground arith));
  }

  -- The state after the units are given back, before its window may be promoted.
  abbrev released : ℕ → ℕ → ℕ → ℕ → Allocator
  released region window start units =
      record (record a {
        regions = put a.regions region (record (a.regions region) { used_units = 0 });
      }) { windows = put a.windows window (release (a.windows window) start units) }

  abbrev pointer : ℕ
  pointer = address + unit_size

  abbrev at_pointer : AllocationHeader
  at_pointer = a.regions (pointer - unit_size)

  region_here : pointer - unit_size ≡ address
  region_here = omega arith

  header_here : at_pointer.header ≡ r.window
  header_here = ap (λ (x : ℕ). (a.regions x).header) region_here ∙ own.recorded.0.3

  units_here : at_pointer.used_units ≡ r.units
  units_here = ap (λ (x : ℕ). (a.regions x).used_units) region_here ∙ own.recorded.0.4

  start_here : unit_start at_pointer.header (pointer - unit_size) ≡ r.start
  start_here = omega (arith, header_here, region_here, own.recorded.0.2, own.recorded.0.1)

  released_here :
      released
        (pointer - unit_size)
        at_pointer.header
        (unit_start at_pointer.header (pointer - unit_size))
        at_pointer.used_units
      ≡ released address r.window r.start r.units
  released_here =
      ap
        (λ (x : ℕ).
          released x at_pointer.header (unit_start at_pointer.header (pointer - unit_size))
            at_pointer.used_units)
        region_here
      ∙ ap
          (λ (x : ℕ).
            released address x (unit_start at_pointer.header (pointer - unit_size))
              at_pointer.used_units)
          header_here
      ∙ ap (λ (x : ℕ). released address r.window x at_pointer.used_units) start_here
      ∙ ap (released address r.window r.start) units_here

  abbrev IsKept : List Region → Allocator → Type 0
  IsKept rest b = IsOwned rest b × IsIndexed b

  promoted : IsKept live (promote r.window (released address r.window r.start r.units))
  promoted =
      let header : AllocationHeader = record (a.regions address) { used_units = 0 } in
      let back = free-IsGivenBack in
      let h = release (a.windows r.window) r.start r.units in
      let b = released address r.window r.start r.units in
      let owned_b = after-IsOwned live h header back (after_records live h header back) in
      let indexed_b = after-IsIndexed live h header back in
      let (same, indexed_d) = promote-Kept b own.once indexed_b r.window own.recorded.0.0 in
      (IsOwned-same b (promote r.window b) same live owned_b, indexed_d)

  -- Freeing an allocation leaves the other ones their units, and each window its place.
  pub free-IsKept : IsKept live (free (region_address r.window r.start + unit_size) a)
  unfolding free mark_freed
  free-IsKept =
      if_cases (IsKept live) (pointer == 0) (λ t. absurd (ground arith))
        (λ t.
          if_cases (IsKept live) (at_pointer.used_units == 0)
            (λ t. absurd (ground (arith, units_here, own.recorded.0.1)))
            (λ t.
              if_cases (IsKept live) (at_pointer.header == 0)
                (λ t. absurd (ground (arith, header_here, own.nonnull r.window own.recorded.0.0)))
                (λ t.
                  subst (IsKept live)
                    (ap (λ (x : ℕ). promote x (released address r.window r.start r.units))
                        (sym header_here)
                      ∙ ap (promote at_pointer.header) (sym released_here))
                    promoted)))

  -- The state that Shrink leaves, by the parts of the allocation's header.
  abbrev shrunk : ℕ → ℕ → ℕ → ℕ → ℕ → Allocator
  shrunk region window start needed units = record a {
    windows = put a.windows window (give_back (a.windows window) start needed units);
    regions = put a.regions region (record (a.regions region) { used_units = needed });
  }

  shrunk_here :
      (needed : ℕ)
      → shrunk
          (pointer - unit_size)
          at_pointer.header
          (unit_start at_pointer.header (pointer - unit_size))
          needed
          at_pointer.used_units
        ≡ shrunk address r.window r.start needed r.units
  shrunk_here needed =
      ap
        (λ (x : ℕ).
          shrunk x at_pointer.header (unit_start at_pointer.header (pointer - unit_size)) needed
            at_pointer.used_units)
        region_here
      ∙ ap
          (λ (x : ℕ).
            shrunk address x (unit_start at_pointer.header (pointer - unit_size)) needed
              at_pointer.used_units)
          header_here
      ∙ ap (λ (x : ℕ). shrunk address r.window x needed at_pointer.used_units) start_here
      ∙ ap (shrunk address r.window r.start needed) units_here

  shrunk-IsKept :
      (needed : ℕ)
      → 2 ≤ needed
      → needed < r.units
      → IsKept (shorter needed ∷ live) (shrunk address r.window r.start needed r.units)
  shrunk-IsKept needed two less =
      let header : AllocationHeader = record (a.regions address) { used_units = needed } in
      let back = shrink-IsGivenBack needed two less in
      let rest = shorter needed ∷ live in
      let h = give_back (a.windows r.window) r.start needed r.units in
      let b = after rest h header back in
      let named : IsRecorded b (shorter needed) =
        put_cases
          (λ (x : AllocationHeader).
            (1 ≤ listed a r.window)
            × (2 ≤ needed)
            × (r.start + needed ≤ window_max_units)
            × (x.header ≡ r.window)
            × (x.used_units ≡ needed))
          a.regions address header address
          (λ e. (own.recorded.0.0, two, omega (arith, own.recorded.0.2), own.recorded.0.3, refl))
          (λ t. absurd (ground arith)) in
      (
        after-IsOwned rest h header back (named, after_records rest h header back),
        after-IsIndexed rest h header back,
      )

  -- Shrinking an allocation to fewer units leaves it those, and the others theirs.
  pub shrink-IsKept :
      (bytes : ℕ)
      → 2 ≤ units_of bytes
      → units_of bytes < r.units
      → IsKept
          (shorter (units_of bytes) ∷ live)
          (shrink (region_address r.window r.start + unit_size) bytes a)
  unfolding shrink
  shrink-IsKept bytes two less =
      let needed = units_of bytes in
      let P = IsKept (shorter needed ∷ live) in
      if_cases P (pointer == 0) (λ t. absurd (ground arith))
        (λ t.
          if_cases P (at_pointer.used_units == 0)
            (λ t. absurd (ground (arith, units_here, own.recorded.0.1)))
            (λ t.
              if_cases P (ltb needed at_pointer.used_units)
                (λ t.
                  if_cases P (at_pointer.header == 0)
                    (λ t.
                      absurd (ground (arith, header_here, own.nonnull r.window own.recorded.0.0)))
                    (λ t. subst P (sym (shrunk_here needed)) (shrunk-IsKept needed two less)))
                (λ t. absurd (ground (arith, units_here)))))
