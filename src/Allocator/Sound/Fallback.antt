-- ===== src/Allocator/Sound/Fallback.antt =====
-- Memory for requests that no window serves: a block of the system's heap each.
use siamese.Prelude.{
  ℕ, ◌+◌, ◌-◌, ◌*◌, ◌%◌, ◌≤◌, ◌<◌, ◌≡◌, ◌≢◌, refl, sym, ap, ◌∙◌, arith, inl, inr, u32,
}
use siamese.Prelude.{List, ◌∷◌, Bool, true, ltb, leb, ◌==◌, if◌then◌else◌, if_cases, Option-cases}
use siamese.Prelude.Lists.{put}
use siamese.Prelude.Memory.{Memory}
use siamese.Allocator.System.{
  Block, System, Calloc, alignment_bytes, remove_block, simd_safe_allocate, simd_safe_free,
}
use siamese.Allocator.State.{
  Allocator, AllocationHeader, unit_size, units_of, fallback_threshold_units,
}
use siamese.Allocator.Allocate.{allocate, fallback_allocate}
use siamese.Allocator.Free.{free, fallback_free, mark_freed}

block_given_back :
    (start size : ℕ) (bs : List Block) (memory : Memory)
    → memory (start + (alignment_bytes - start % alignment_bytes) - 1) ≡ start % alignment_bytes
    → simd_safe_free
        (record { memory = memory; blocks = record { address = start; size = size } ∷ bs })
        (start + (alignment_bytes - start % alignment_bytes))
      ≡ record { memory = memory; blocks = bs }
unfolding simd_safe_free remove_block
block_given_back start size bs memory kept =
    let P = λ (s : System). s ≡ record { memory = memory; blocks = bs } in
    let ptr = start + (alignment_bytes - start % alignment_bytes) in
    let offset = memory (ptr - 1) in
    let same : start ≡ ptr - (alignment_bytes - offset) = omega arith in
    if_cases P (ptr == 0) (λ t. absurd (ground arith))
      (λ t.
        if_cases P (leb alignment_bytes offset) (λ t. absurd (ground arith))
          (λ t.
            if_cases (λ (rest : List Block). P (record { memory = memory; blocks = rest }))
              (start == ptr - (alignment_bytes - offset)) (λ u. refl) (λ u. absurd (ground arith))))

-- What SIMDSafeFree does with the outcome of SIMDSafeAllocate.
abbrev IsGivenBack : System → Memory → ℕ × System → Type 0
IsGivenBack system memory (p, s) =
    p ≢ 0
    → memory (p - 1) ≡ s.memory (p - 1)
    → simd_safe_free (record { memory = memory; blocks = s.blocks }) p
      ≡ record { memory = memory; blocks = system.blocks }

IsGivenBack-any :
    (calloc : Calloc) (system : System) (size : ℕ) (memory : Memory)
    → IsGivenBack system memory (simd_safe_allocate calloc system size)
unfolding simd_safe_allocate
IsGivenBack-any calloc system size memory =
    elim (Option-cases (calloc system.blocks (alignment_bytes + size))) [
      | inl e ↦ rw (e, simd_safe_allocate) (λ had kept. absurd (had refl))
      | inr (start, e) ↦
          rw (e, simd_safe_allocate)
            (λ had kept.
              block_given_back start (alignment_bytes + size) system.blocks memory
                (ground (arith, kept)))
    ]

-- SIMDSafeFree gives back the block that SIMDSafeAllocate had, if the byte in front of the pointer is
-- the one that was written there.
pub simd_safe_free-simd_safe_allocate :
    (calloc : Calloc) (system : System) (size : ℕ) (memory : Memory)
    → (simd_safe_allocate calloc system size).0 ≢ 0
    → memory ((simd_safe_allocate calloc system size).0 - 1)
      ≡ (simd_safe_allocate calloc system size).1.memory
          ((simd_safe_allocate calloc system size).0 - 1)
    → simd_safe_free
        (record { memory = memory; blocks = (simd_safe_allocate calloc system size).1.blocks })
        (simd_safe_allocate calloc system size).0
      ≡ record { memory = memory; blocks = system.blocks }
simd_safe_free-simd_safe_allocate calloc system size memory had kept =
    IsGivenBack-any calloc system size memory had kept

-- The blocks, the windows and the lists are those of a.
abbrev pub IsRestored : Allocator → Memory → Allocator → Type 0
IsRestored a memory b =
    (b.system ≡ record { memory = memory; blocks = (a.system).blocks })
    × (b.windows ≡ a.windows)
    × (b.preferred ≡ a.preferred)
    × (b.full ≡ a.full)

-- What Free does with the outcome of a fallback allocation.
abbrev IsUndone : Allocator → Memory → ℕ × Allocator → Type 0
IsUndone a memory (p, b) =
    p ≢ 0
    → memory (p - unit_size - 1) ≡ (b.system).memory (p - unit_size - 1)
    → IsRestored a memory (free p (record b { system = record (b.system) { memory = memory } }))

fallback-IsUndone :
    (calloc : Calloc) (a : Allocator) (bytes : ℕ) (memory : Memory)
    → 1 ≤ units_of bytes
    → IsUndone a memory (fallback_allocate calloc bytes a)
unfolding fallback_allocate free mark_freed fallback_free
fallback-IsUndone calloc a bytes memory h =
    let size = u32 (unit_size * units_of bytes) in
    let (ptr, system) = simd_safe_allocate calloc a.system size in
    let header : AllocationHeader = record { header = 0; used_units = units_of bytes } in
    let found : AllocationHeader = put a.regions ptr header (ptr + unit_size - unit_size) in
    let here : ptr + unit_size - unit_size ≡ ptr = omega arith in
    let self : (ptr + unit_size - unit_size == ptr) ≡ true = ground arith in
    let at : found ≡ header =
      ap (λ (b : Bool). if b then header else a.regions (ptr + unit_size - unit_size)) self in
    let P = IsRestored a memory in
    if_cases (IsUndone a memory) (ptr == 0) (λ t had kept. absurd (had refl))
      (λ t had kept.
        if_cases P (ptr + unit_size == 0) (λ u. absurd (ground arith))
          (λ u.
            if_cases P (found.used_units == 0)
              (λ v. absurd (ground (arith, ap (λ (x : AllocationHeader). x.used_units) at)))
              (λ v.
                if_cases P (found.header == 0)
                  (λ w. (
                    ap (simd_safe_free (record { memory = memory; blocks = system.blocks })) here
                        ∙ simd_safe_free-simd_safe_allocate calloc a.system size memory
                            (λ z. absurd (ground arith))
                            (ap (λ (x : ℕ). memory (x - 1)) (sym here)
                              ∙ kept
                              ∙ ap (λ (x : ℕ). system.memory (x - 1)) here),
                    refl,
                    refl,
                    refl,
                  ))
                  (λ w. absurd (ground (arith, ap (λ (x : AllocationHeader). x.header) at))))))

-- Freeing an allocation of one byte or more, in more than 512 units, that did not return the null
-- pointer, with the byte in front of its header unchanged, gives its block back to the system and
-- leaves the windows and both lists as they were before the allocation.
pub free-allocate_fallback :
    (calloc : Calloc) (a : Allocator) (bytes : ℕ) (memory : Memory)
    → 1 ≤ bytes
    → fallback_threshold_units < units_of bytes
    → (allocate calloc bytes a).0 ≢ 0
    → memory ((allocate calloc bytes a).0 - unit_size - 1)
      ≡ ((allocate calloc bytes a).1.system).memory ((allocate calloc bytes a).0 - unit_size - 1)
    → IsRestored a memory (
        free (allocate calloc bytes a).0 (record (allocate calloc bytes a).1 {
          system = record ((allocate calloc bytes a).1.system) { memory = memory };
        }))
unfolding allocate
free-allocate_fallback calloc a bytes memory h large had kept =
    if_cases (IsUndone a memory) (bytes == 0) (λ t. absurd (ground arith))
      (λ t.
        if_cases (IsUndone a memory) (ltb fallback_threshold_units (units_of bytes))
          (λ u. fallback-IsUndone calloc a bytes memory (omega arith)) (λ u. absurd (ground arith)))
      had kept
