-- ===== src/Allocator/Sound/Reallocations.antt =====
-- Reallocate: what becomes of the allocation, of the others and of the bytes.
use siamese.Prelude.{
  ℕ, ◌+◌, ◌-◌, ◌*◌, ◌≤◌, ◌<◌, ◌≡◌, ◌≢◌, refl, sym, ap, ◌∙◌, arith, ◌⊎◌, inl, inr, u32,
}
use siamese.Prelude.{List, ◌∷◌, ltb, leb, ◌==◌, if_cases}
use mathlib.Core.Path.{subst}
use siamese.Prelude.{◌&&◌}
use siamese.Prelude.Int.{pos_part}
use siamese.Prelude.Lists.{length, put}
use siamese.Allocator.System.{System, Calloc}
use siamese.Allocator.System.Blocks.{IsFresh, IsInside, IsInside-part}
use siamese.Allocator.State.{
  preferred_threshold_units, Allocator, unit_size, units_of, region_address, window_size_bytes,
}
use siamese.Allocator.Allocate.{allocate}
use siamese.Allocator.Free.{
  Realloc, uninitialized, copy_existing, copied, copy_old, free, mark_freed, promote, in_full_list,
  leave_full_list, reallocate,
}
use siamese.Allocator.Sound.{Region, IsRecorded, IsOwned, IsIndexed}
use siamese.Allocator.Sound.Allocations.{allocate-IsAllocated}
use siamese.Allocator.Sound.Release.{free-IsKept}
use siamese.Allocator.Sound.Contents.{allocate_keeps}
use siamese.Allocator.Sound.Runs.{Picks, there, pointer, IsSmall}
use siamese.Allocator.Sound.Reachable.{Picks-IsOwned, written-IsOwned}

pub existing_units :
    (r : Region) (a : Allocator)
    → IsRecorded a r
    → (a.regions (pointer r - unit_size)).used_units ≡ r.units
existing_units r a rec =
    let here : pointer r - unit_size ≡ region_address r.window r.start = omega arith in
    ap (λ (x : ℕ). (a.regions x).used_units) here ∙ rec.4

-- Reallocate gives the pointer back, with the state as it was, if the allocation has units enough.
pub reallocate_enough :
    (calloc : Calloc) (r : Region) (a : Allocator) (bytes : ℕ) (behavior : Realloc)
    → IsRecorded a r
    → 1 ≤ bytes
    → units_of bytes ≤ r.units
    → reallocate calloc (pointer r) bytes behavior a ≡ (pointer r, a)
unfolding reallocate
reallocate_enough calloc r a bytes behavior rec h enough =
    let P = λ (x : ℕ × Allocator). x ≡ (pointer r, a) in
    if_cases P (pointer r == 0) (λ t. absurd (ground arith))
      (λ t.
        if_cases P (bytes == 0) (λ t. absurd (ground arith))
          (λ t.
            if_cases P (leb (units_of bytes) (a.regions (pointer r - unit_size)).used_units)
              (λ t. refl) (λ t. absurd (ground (arith, existing_units r a rec)))))

leave_full_list-system : (w : ℕ) (a : Allocator) → (leave_full_list w a).system ≡ a.system
unfolding leave_full_list
leave_full_list-system w a =
    if_cases (λ (b : Allocator). b.system ≡ a.system)
      (ltb (pos_part (a.windows w).full_list_index) (length a.full - 1)) (λ t. refl) (λ t. refl)

promote-system : (w : ℕ) (a : Allocator) → (promote w a).system ≡ a.system
unfolding promote
promote-system w a =
    let h = a.windows w in
    let rescanned = record a { windows = put a.windows w (record h { resume_scan_offset = 0 }) } in
    if_cases (λ (b : Allocator). b.system ≡ a.system)
      (leb preferred_threshold_units h.free_unit_count && in_full_list h)
      (λ t. leave_full_list-system w rescanned) (λ t. refl)

-- Freeing an allocation of a window changes no byte.
free-system :
    (ptr : ℕ) (a : Allocator)
    → (a.regions (ptr - unit_size)).header ≢ 0
    → (free ptr a).system ≡ a.system
unfolding free mark_freed
free-system ptr a in_window =
    let region = ptr - unit_size in
    let h = a.regions region in
    let P = λ (b : Allocator). b.system ≡ a.system in
    if_cases P (ptr == 0) (λ t. refl)
      (λ t.
        if_cases P (h.used_units == 0) (λ t. refl)
          (λ t.
            if_cases P (h.header == 0) (λ t. absurd (in_window (ground arith)))
              (λ t. promote-system h.header _)))

-- The outcome where an allocation grows: without memory the old one is kept; else a new one takes its
-- place, and P holds of the new region and the state.
abbrev pub IsGrown :
    List Region → List Region → ℕ → (Region → Allocator → Type 0) → ℕ × Allocator → Type 0
IsGrown live rest units P (ptr, b) =
    ((ptr ≡ 0) × IsOwned live b × IsIndexed b)
    ⊎ ((q : Region) × (q.units ≡ units)
        × (ptr ≡ pointer q)
        × IsOwned (q ∷ rest) b
        × IsIndexed b
        × P q b)

-- The bytes of the old allocation are those that the new one starts with.
abbrev pub HoldsOld : Realloc → Region → Allocator → Region → Allocator → Type 0
HoldsOld uninitialized r a q b = Unit {0}
HoldsOld copy_existing r a q b =
    (k : ℕ)
    → k < (r.units - 1) * unit_size
    → (b.system).memory (pointer q + k) ≡ (a.system).memory (pointer r + k)

module _ (calloc : Calloc) (fresh : IsFresh calloc) (r : Region) (live rest : List Region)
    (a : Allocator) (own : IsOwned live a) (index : IsIndexed a) (p : Picks r live rest) (bytes : ℕ)
    (behavior : Realloc) where
  abbrev units_before : ℕ
  units_before = (a.regions (pointer r - unit_size)).used_units

  abbrev grown : Allocator
  grown = (allocate calloc bytes a).1

  -- The state before the old allocation is freed.
  abbrev moved : ℕ → Allocator
  moved target = copy_old behavior target (pointer r) units_before grown

  IsRecorded-before : IsRecorded a r
  IsRecorded-before = (Picks-IsOwned r live rest a p own).recorded.0

  module _ (q : Region) (own_new : IsOwned (q ∷ live) grown) (index_new : IsIndexed grown) where
    moved-IsOwned :
        (b : Realloc)
        → IsOwned (q ∷ live) (copy_old b (pointer q) (pointer r) units_before grown)
          × IsIndexed (copy_old b (pointer q) (pointer r) units_before grown)
    unfolding copy_old
    moved-IsOwned uninitialized = (own_new, index_new)
    moved-IsOwned copy_existing = (
      written-IsOwned (q ∷ live) grown _ own_new,
      record { outside = index_new.outside; place = index_new.place },
    )

    moved_picked : IsOwned (r ∷ q ∷ rest) (moved (pointer q))
    moved_picked =
        Picks-IsOwned r (q ∷ live) (q ∷ rest) (moved (pointer q)) (there p)
          (moved-IsOwned behavior).0

    -- Freeing the old allocation keeps the bytes.
    freed_memory : (free (pointer r) (moved (pointer q))).system ≡ (moved (pointer q)).system
    freed_memory =
        let rec = moved_picked.recorded.0 in
        let here : pointer r - unit_size ≡ region_address r.window r.start = omega arith in
        free-system (pointer r) (moved (pointer q)) (λ z. absurd (
          omega (
            arith,
            ap (λ (x : ℕ). ((moved (pointer q)).regions x).header) here,
            rec.3,
            moved_picked.nonnull r.window rec.0,
          )))

    copied_byte :
        (k : ℕ)
        → k < (r.units - 1) * unit_size
        → copied
            (grown.system).memory
            (pointer q)
            (pointer r)
            (u32 ((units_before - 1) * unit_size))
            (pointer q + k)
          ≡ (a.system).memory (pointer r + k)
    copied_byte k h =
        let (l, two, fit, window_named, units_named) = IsRecorded-before in
        let back : pointer r + (pointer q + k - pointer q) ≡ pointer r + k = omega arith in
        let used : IsInside (pointer r + k) 1 (a.system).blocks =
          IsInside-part r.window window_size_bytes (pointer r + k) 1 (a.system).blocks
            (own.inside r.window l) (omega arith) (omega arith) in
        ground (
          arith,
          existing_units r a IsRecorded-before,
          ap (grown.system).memory back,
          allocate_keeps calloc fresh bytes (pointer r + k) a used,
        )

    holds_old :
        (b : Realloc) → behavior ≡ b → HoldsOld b r a q (free (pointer r) (moved (pointer q)))
    unfolding copy_old
    holds_old uninitialized e = tt
    holds_old copy_existing e = λ k h.
        ap (λ (s : System). s.memory (pointer q + k)) freed_memory
        ∙ ap
            (λ (c : Realloc).
              ((copy_old c (pointer q) (pointer r) units_before grown).system).memory
                (pointer q + k))
            e
        ∙ copied_byte k h

  -- If calloc returns fresh blocks, then reallocating a live allocation of a sound state to a size
  -- that takes more units, up to 512, either returns the null pointer and keeps every live
  -- allocation, or puts a new allocation of those units in place of the old one and, where the
  -- contents are to be copied, with all bytes of the old one at its front; the state stays sound.
  pub reallocate-IsGrown :
      1 ≤ bytes
      → IsSmall bytes
      → r.units < units_of bytes
      → IsGrown live rest
          (units_of bytes)
          (HoldsOld behavior r a)
          (reallocate calloc (pointer r) bytes behavior a)
  unfolding reallocate
  reallocate-IsGrown h small more =
      let P = IsGrown live rest (units_of bytes) (HoldsOld behavior r a) in
      let ptr = (allocate calloc bytes a).0 in
      let enough = leb (units_of bytes) units_before in
      if_cases P (pointer r == 0) (λ t. absurd (ground arith))
        (λ t.
          if_cases P (bytes == 0) (λ t. absurd (ground arith))
            (λ t.
              if_cases P enough (λ t. absurd (ground (arith, existing_units r a IsRecorded-before)))
                (λ t.
                  elim (allocate-IsAllocated calloc fresh live a own index bytes h small.1
                    small.0) [
                      | inl (null, own', index') ↦
                          if_cases P (ptr == 0) (λ t. inl (refl, own', index'))
                            (λ t. absurd (ground arith))
                      | inr (q, units, at, own', index') ↦
                          if_cases P (ptr == 0) (λ t. absurd (ground arith))
                            (λ t.
                              let kept =
                                free-IsKept r (q ∷ rest) (moved (pointer q))
                                  (moved_picked q own' index')
                                  (moved-IsOwned q own' index' behavior).1 in
                              subst (λ (x : ℕ). P (x, free (pointer r) (moved x))) (sym at)
                                (inr (
                                  q,
                                  units,
                                  refl,
                                  kept.0,
                                  kept.1,
                                  holds_old q own' index' behavior refl,
                                )))
                    ])))
