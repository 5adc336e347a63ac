-- ===== src/Allocator/Sound/Contents.antt =====
-- The bytes of the memory through Allocate. The headers stand apart from it, in maps of their own, so
-- that nothing is said here of the bytes that these take.
use siamese.Prelude.{ℕ, zero, suc, ◌+◌, ◌*◌, ◌≡◌, refl, sym, ap, ◌∙◌, arith, inl, inr, u32}
use siamese.Prelude.{ltb, ◌==◌, if_cases, Option-cases}
use mathlib.Core.Path.{subst}
use siamese.Prelude.Lists.{length, get_or}
use siamese.Allocator.System.{System, Calloc, alignment_bytes, simd_safe_allocate}
use siamese.Allocator.System.Blocks.{IsFresh, IsInside, IsInside-IsApart}
use siamese.Allocator.Window.{find_region}
use siamese.Allocator.State.{
  Allocator, window_size_bytes, fallback_threshold_units, unit_size, units_of, move_windows,
  move_last_few_windows_to_full,
}
use siamese.Allocator.Allocate.{
  allocate, allocate_from_new_window, fallback_allocate, scan_preferred, take_region,
}

move_windows-system : (fc pc i n : ℕ) (a : Allocator) → (move_windows fc pc i n a).system ≡ a.system
unfolding move_windows
move_windows-system fc pc i zero a = refl
move_windows-system fc pc i (suc n) a = move_windows-system fc pc (suc i) n _

move_last_few-system :
    (n : ℕ) (a : Allocator) → (move_last_few_windows_to_full n a).system ≡ a.system
unfolding move_last_few_windows_to_full
move_last_few-system n a = move_windows-system (length a.full) (length a.preferred) 0 n a

module _ (calloc : Calloc) (fresh : IsFresh calloc) where
  -- A new block's bytes are cleared, and one is written; those of the blocks in use are kept.
  pub simd_safe_allocate_keeps :
      (system : System) (size j : ℕ)
      → IsInside j 1 system.blocks
      → (simd_safe_allocate calloc system size).1.memory j ≡ system.memory j
  unfolding simd_safe_allocate
  simd_safe_allocate_keeps system size j used =
      elim (Option-cases (calloc system.blocks (alignment_bytes + size))) [
        | inl e ↦ rw (e, simd_safe_allocate) refl
        | inr (start, e) ↦
            let (positive, free_block) = fresh system.blocks (alignment_bytes + size) start e in
            let unmet =
              IsInside-IsApart j 1 start (alignment_bytes + size) system.blocks used free_block in
            rw (e, simd_safe_allocate) (elim unmet [ inl l ↦ ground arith | inr l ↦ ground arith ])
      ]

  abbrev Keeps : ℕ → Allocator → ℕ × Allocator → Type 0
  Keeps j a r = (r.1.system).memory j ≡ (a.system).memory j

  new_window-Keeps :
      (units j : ℕ) (a : Allocator)
      → IsInside j 1 (a.system).blocks
      → Keeps j a (allocate_from_new_window calloc units a)
  unfolding allocate_from_new_window
  new_window-Keeps units j a used =
      if_cases (Keeps j a) ((simd_safe_allocate calloc a.system window_size_bytes).0 == 0)
        (λ t. simd_safe_allocate_keeps a.system window_size_bytes j used)
        (λ t. simd_safe_allocate_keeps a.system window_size_bytes j used)

  fallback-Keeps :
      (bytes j : ℕ) (a : Allocator)
      → IsInside j 1 (a.system).blocks
      → Keeps j a (fallback_allocate calloc bytes a)
  unfolding fallback_allocate
  fallback-Keeps bytes j a used =
      let size = u32 (unit_size * units_of bytes) in
      if_cases (Keeps j a) ((simd_safe_allocate calloc a.system size).0 == 0)
        (λ t. simd_safe_allocate_keeps a.system size j used)
        (λ t. simd_safe_allocate_keeps a.system size j used)

  scan-Keeps :
      (units n j : ℕ) (a : Allocator)
      → IsInside j 1 (a.system).blocks
      → Keeps j a (scan_preferred calloc units n a)
  unfolding scan_preferred take_region
  scan-Keeps units zero j a used =
      let b = move_last_few_windows_to_full (length a.preferred) a in
      let e : b.system ≡ a.system = move_last_few-system (length a.preferred) a in
      new_window-Keeps units j b (subst (λ (s : System). IsInside j 1 s.blocks) (sym e) used)
      ∙ ap (λ (s : System). s.memory j) e
  scan-Keeps units (suc n) j a used =
      let rest = scan-Keeps units n j a used in
      elim (Option-cases (find_region (a.windows (get_or a.preferred n 0)) units)) [
        | inl e ↦ rw (e, scan_preferred) rest
        | inr (start, e) ↦
            rw (e, scan_preferred) (ap (λ (s : System). s.memory j) (move_last_few-system _ _))
      ]

  -- Allocate with fresh blocks, for a byte of a block that was in use.
  pub allocate_keeps :
      (bytes j : ℕ) (a : Allocator)
      → IsInside j 1 (a.system).blocks
      → ((allocate calloc bytes a).1.system).memory j ≡ (a.system).memory j
  unfolding allocate
  allocate_keeps bytes j a used =
      if_cases (Keeps j a) (bytes == 0) (λ t. refl)
        (λ t.
          if_cases (Keeps j a) (ltb fallback_threshold_units (units_of bytes))
            (λ u. fallback-Keeps bytes j a used)
            (λ u. scan-Keeps (units_of bytes) (length a.preferred) j a used))
