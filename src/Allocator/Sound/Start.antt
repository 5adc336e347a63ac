-- ===== src/Allocator/Sound/Start.antt =====
-- The constructor's state: two empty windows in one chunk, or an allocator without its chunk.
use siamese.Prelude.{ℕ, ◌+◌, ◌*◌, ◌≤◌, ◌<◌, ◌≡◌, ◌≢◌, refl, sym, ap, ◌∙◌, arith, ◌⊎◌, inl, inr}
use siamese.Prelude.{[], ◌∷◌, ◌==◌, if_cases, Bool-cases}
use mathlib.Core.Path.{subst}
use siamese.Prelude.Lists.{put, put_cases}
use siamese.Allocator.BitSet.Members.{check-clear_all}
use siamese.Allocator.System.{System, Calloc, simd_safe_allocate}
use siamese.Allocator.System.Blocks.{IsInside, IsFresh, IsInside-part, simd_safe_allocate-IsAligned}
use siamese.Allocator.Window.{WindowHeader, window_max_units, preallocated_window, not_in_full_list}
use siamese.Allocator.Window.Consistent.{IsConsistent}
use siamese.Allocator.Window.Fresh.{fresh-IsConsistent}
use siamese.Allocator.State.{Allocator, AllocationHeader, window_size_bytes, preallocated_windows}
use siamese.Allocator.Allocate.{zero_words}
use siamese.Allocator.Free.{construct, preallocate, default_members}
use siamese.Allocator.Sound.{used_bit, listed, IsOwned, IsIndexed}

module _ (windows : ℕ → WindowHeader) (regions : ℕ → AllocationHeader) (chunk : ℕ) (system : System)
    (positive : 1 ≤ chunk)
    (in_block : IsInside chunk (window_size_bytes * preallocated_windows) system.blocks) where
  abbrev second : ℕ
  second = chunk + window_size_bytes

  abbrev started : Allocator
  started = record {
    system = system;
    windows =
        put (put windows chunk (preallocated_window zero_words)) second
          (preallocated_window zero_words);
    regions = regions;
    huge_chunk_start = chunk;
    preferred = chunk ∷ second ∷ [];
    full = [];
  }

  first_or_second : (v : ℕ) → 1 ≤ listed started v → (v ≡ chunk) ⊎ (v ≡ second)
  first_or_second v l = elim (Bool-cases (chunk == v)) [
    | inl t ↦ inl (ground arith)
    | inr t ↦ inr (ground arith)
  ]

  started_window :
      (v : ℕ) → 1 ≤ listed started v → started.windows v ≡ preallocated_window zero_words
  started_window v l =
      put_cases (λ h. h ≡ preallocated_window zero_words)
        (put windows chunk (preallocated_window zero_words)) second (preallocated_window zero_words)
        v (λ e. refl)
        (λ t.
          put_cases (λ h. h ≡ preallocated_window zero_words) windows chunk
            (preallocated_window zero_words) v (λ e. refl)
            (λ u. elim (first_or_second v l) [
              | inl e ↦ absurd (ground arith)
              | inr e ↦ absurd (ground arith)
            ]))

  empty_bit : (j : ℕ) → j < window_max_units → 0 ≡ used_bit (preallocated_window zero_words) j
  unfolding preallocated_window
  empty_bit j h = ground (arith, check-clear_all window_max_units zero_words j h)

  outside_index : (preallocated_window zero_words).full_list_index ≡ not_in_full_list
  unfolding preallocated_window
  outside_index = refl

  started-IsOwned : IsOwned [] started
  started-IsOwned = record {
    once = λ v. ground arith;
    consistent = λ v l.
        subst IsConsistent (sym (started_window v l))
          (fresh-IsConsistent zero_words (λ i. omega arith) 0 (omega arith)).0;
    owned = λ v j l h.
        empty_bit j h ∙ ap (λ (x : WindowHeader). used_bit x j) (sym (started_window v l));
    nonnull = λ v l. elim (first_or_second v l) [ inl e ↦ omega arith | inr e ↦ omega arith ];
    inside = λ v l. elim (first_or_second v l) [
      | inl e ↦
          IsInside-part chunk (window_size_bytes * preallocated_windows) v window_size_bytes
            system.blocks in_block (omega arith) (omega arith)
      | inr e ↦
          IsInside-part chunk (window_size_bytes * preallocated_windows) v window_size_bytes
            system.blocks in_block (omega arith) (omega arith)
    ];
    apart = λ u v lu lv h. elim (first_or_second u lu) [
      | inl e ↦ elim (first_or_second v lv) [ inl f ↦ absurd (omega arith) | inr f ↦ omega arith ]
      | inr e ↦ elim (first_or_second v lv) [
        | inl f ↦ absurd (omega arith)
        | inr f ↦ absurd (omega arith)
      ]
    ];
    recorded = tt;
  }

  started-IsIndexed : IsIndexed started
  started-IsIndexed = record {
    outside = λ v l.
        ap (λ (x : WindowHeader). x.full_list_index) (started_window v (omega arith))
        ∙ outside_index;
    place = λ i h. absurd (omega arith);
  }

-- Where the chunk can be had, no unit of its windows is in use, and each knows that it is preferred.
pub construct-IsOwned :
    (calloc : Calloc)
    → IsFresh calloc
    → (system : System) (windows : ℕ → WindowHeader) (regions : ℕ → AllocationHeader) (x y : ℕ)
    → (construct calloc (default_members system windows regions x y)).huge_chunk_start ≢ 0
    → IsOwned [] (construct calloc (default_members system windows regions x y))
      × IsIndexed (construct calloc (default_members system windows regions x y))
unfolding construct preallocate default_members
construct-IsOwned calloc fresh system windows regions x y had =
    let result = simd_safe_allocate calloc system (window_size_bytes * preallocated_windows) in
    let P = λ (b : Allocator). b.huge_chunk_start ≢ 0 → IsOwned [] b × IsIndexed b in
    if_cases P (result.0 == 0) (λ t had. absurd (had (ground arith)))
      (λ t had.
        elim (simd_safe_allocate-IsAligned calloc fresh system
          (window_size_bytes * preallocated_windows)) [
            | inl (null, same) ↦ absurd (ground arith)
            | inr (positive, aligned, unmet, new_inside, old_inside) ↦ (
              started-IsOwned windows regions result.0 result.1 positive new_inside,
              started-IsIndexed windows regions result.0 result.1 positive new_inside,
            )
          ])
      had
