-- ===== src/Allocator/Sound/Allocations.antt =====
-- Allocate gives each allocation its own units.
use siamese.Prelude.{ℕ, zero, suc, ◌≤◌, arith, inl, inr}
use siamese.Prelude.{List, ltb, ◌==◌, if_cases, Option-cases}
use siamese.Prelude.Lists.{length, get_or}
use siamese.Allocator.System.{Calloc}
use siamese.Allocator.System.Blocks.{IsFresh}
use siamese.Allocator.Window.{find_region}
use siamese.Allocator.State.{
  Allocator, units_of, fallback_threshold_units, move_last_few_windows_to_full,
}
use siamese.Allocator.Allocate.{scan_preferred, allocate}
use siamese.Allocator.Sound.{Region, IsOwned, IsIndexed}
use siamese.Allocator.Sound.Moves.{move_last_few_lem}
use siamese.Allocator.Sound.Take.{IsAllocated, take_region-IsAllocated}
use siamese.Allocator.Sound.Grow.{allocate_from_new_window-IsAllocated}

module _ (calloc : Calloc) (fresh : IsFresh calloc) (live : List Region) (a : Allocator)
    (own : IsOwned live a) (index : IsIndexed a) where
  scan-IsAllocated :
      (units : ℕ)
      → 2 ≤ units
      → units ≤ fallback_threshold_units
      → (n : ℕ) → n ≤ length a.preferred
      → IsAllocated live units (scan_preferred calloc units n a)
  unfolding scan_preferred
  scan-IsAllocated units two small zero h =
      let (same, own', index') =
        move_last_few_lem (length a.preferred) a live (omega arith) own index in
      allocate_from_new_window-IsAllocated calloc fresh live
        (move_last_few_windows_to_full (length a.preferred) a) units own' index' two (omega arith)
  scan-IsAllocated units two small (suc n) h =
      let rest = scan-IsAllocated units two small n (omega arith) in
      elim (Option-cases (find_region (a.windows (get_or a.preferred n 0)) units)) [
        | inl e ↦ rw (e, scan_preferred) rest
        | inr (start, e) ↦
            rw (e, scan_preferred) (take_region-IsAllocated live a units n start own index two h e)
      ]

  -- If calloc returns fresh blocks, then from a sound state an allocation of one byte or more, in 2
  -- to 512 units, either returns the null pointer and leaves a sound state with the same live
  -- allocations, or returns the data of a new allocation of that many units in a sound state that
  -- has it beside the others.
  pub allocate-IsAllocated :
      (bytes : ℕ)
      → 1 ≤ bytes
      → units_of bytes ≤ fallback_threshold_units
      → 2 ≤ units_of bytes
      → IsAllocated live (units_of bytes) (allocate calloc bytes a)
  unfolding allocate
  allocate-IsAllocated bytes h small two =
      if_cases (IsAllocated live (units_of bytes)) (bytes == 0) (λ t. absurd (ground arith))
        (λ t.
          if_cases (IsAllocated live (units_of bytes))
            (ltb fallback_threshold_units (units_of bytes)) (λ u. absurd (ground arith))
            (λ u. scan-IsAllocated (units_of bytes) two small (length a.preferred) (omega arith)))
