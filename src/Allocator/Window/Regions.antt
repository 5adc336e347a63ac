-- ===== src/Allocator/Window/Regions.antt =====
-- The walk over the holes of a window against a search that tries one start after the other.
use siamese.Prelude.{ℕ, zero, suc, ◌+◌, ◌-◌, ◌*◌, ◌≤◌, ◌<◌, ◌≡◌, refl, sym, ap, ◌∙◌, arith}
use siamese.Prelude.{Bool, true, false, ltb, Option, none, some, inl, inr, if◌then◌else◌, if_cases}
use native.Mathlib.Decide.{dec_lt}
use siamese.Allocator.BitSet.{CustomBitSet, check, find_first_clear, find_first_set, word_count}
use siamese.Allocator.BitSet.Words.{IsWords}
use siamese.Allocator.BitSet.Search.{search, unset}
use siamese.Allocator.Window.{window_max_units, walk}
use siamese.Allocator.Window.Outcomes.{
  AllFail, Outcome, AllFail-cons, search_hit, search_skip, search_nothing, not-true, not-false,
  find_first_clear-Outcome, find_first_set-Outcome,
}

-- n clear units from j on.
unfoldable pub free_run : CustomBitSet → ℕ → ℕ → Bool
free_run used zero j = true
free_run used (suc n) j = let rest = free_run used n (suc j) in if check used j then false else rest

-- A region of `units` clear units starts at j and lies inside the window.
unfoldable pub fits : CustomBitSet → ℕ → ℕ → Bool
fits used units j = if ltb window_max_units (j + units) then false else free_run used units j

module _ (used : CustomBitSet) where
  free_run_blocked :
      (n j e : ℕ) → check used e ≡ true → j ≤ e → e < j + n → free_run used n j ≡ false
  unfolding free_run
  free_run_blocked zero j e t lo h = absurd (omega arith)
  free_run_blocked (suc n) j e t lo h = elim (dec_lt j e) [
    | yes l ↦
        let rest = free_run_blocked n (suc j) e t (omega arith) (omega arith) in
        if_cases (λ b. b ≡ false) (check used j) (λ c. refl) (λ c. rest)
    | no l ↦
        let q : j ≡ e = omega arith in
        ap (λ (b : Bool). if b then false else free_run used n (suc j)) (ap (check used) q ∙ t)
  ]

  free_run_clear : (n j : ℕ) → AllFail (check used) j (j + n) → free_run used n j ≡ true
  unfolding free_run
  free_run_clear zero j all = refl
  free_run_clear (suc n) j all =
      ap (λ (b : Bool). if b then false else free_run used n (suc j))
        (all j (omega arith) (omega arith))
      ∙ free_run_clear n (suc j) (λ i lo h. all i (omega arith) (omega arith))

  module _ (units : ℕ) where
    -- No region starts at a unit that has a used one in its reach.
    blocked : (j e : ℕ) → check used e ≡ true → j ≤ e → e < j + units → fits used units j ≡ false
    unfolding fits
    blocked j e t lo h =
        if_cases (λ b. b ≡ false) (ltb window_max_units (j + units)) (λ c. refl)
          (λ c. free_run_blocked units j e t lo h)

    outside : (j : ℕ) → window_max_units < j + units → fits used units j ≡ false
    unfolding fits
    outside j h =
        let t : ltb window_max_units (j + units) ≡ true = ground arith in
        ap (λ (b : Bool). if b then false else free_run used units j) t

    inside :
        (j : ℕ)
        → j + units ≤ window_max_units
        → AllFail (check used) j (j + units)
        → fits used units j ≡ true
    unfolding fits
    inside j h all =
        let t : ltb window_max_units (j + units) ≡ false = ground arith in
        ap (λ (b : Bool). if b then false else free_run used units j) t ∙ free_run_clear units j all

    abbrev later : ℕ → Option ℕ
    later start = search (fits used units) start (window_max_units - start)

    -- Starts that fail are passed over.
    pass :
        (a b : ℕ) → a ≤ b → b ≤ window_max_units → AllFail (fits used units) a b → later a ≡ later b
    pass a b h k all =
        let e : window_max_units - a ≡ b - a + (window_max_units - b) = omega arith in
        let f : a + (b - a) ≡ b = omega arith in
        ap (search (fits used units) a) e
        ∙ search_skip (fits used units) (b - a) a (window_max_units - b)
            (λ j lo hi. all j lo (omega arith))
        ∙ ap (λ (x : ℕ). search (fits used units) x (window_max_units - b)) f

    none_left : (a : ℕ) → AllFail (fits used units) a window_max_units → later a ≡ none
    none_left a all = search_nothing (fits used units) (window_max_units - a) a (λ j lo hi.
        elim (dec_lt j window_max_units) [ yes l ↦ all j lo l | no l ↦ absurd (omega arith) ])

    taken : (j : ℕ) → 0 < units → unset used j ≡ false → fits used units j ≡ false
    taken j p h = blocked j j (not-false (check used j) h) (omega arith) (omega arith)

    hit_later : (j : ℕ) → j < window_max_units → fits used units j ≡ true → later j ≡ some j
    hit_later j h t =
        let e : window_max_units - j ≡ suc (window_max_units - j - 1) = omega arith in
        ap (search (fits used units) j) e
        ∙ search_hit (fits used units) j (window_max_units - j - 1) t

    -- What the search for a clear unit says of the starts before it.
    prefix :
        (start s : ℕ)
        → start < window_max_units
        → 0 < units
        → Outcome (unset used) start window_max_units window_max_units s
        → (start ≤ s)
          × (s ≤ window_max_units)
          × AllFail (fits used units) start s
          × (s < window_max_units → check used s ≡ false)
    prefix start s l p (inl (e, all)) = (
      omega arith,
      omega arith,
      λ j lo h. taken j p (all j lo (omega arith)),
      λ h. absurd (omega arith),
    )
    prefix start s l p (inr (lo, h, hit, all)) =
        (lo, omega arith, λ j jlo jh. taken j p (all j jlo jh), λ k. not-true (check used s) hit)

    module _ (s e : ℕ) (clear_here : check used s ≡ false)
        (end_found : Outcome (check used) (s + 1) (word_count (s + units) * 64) (s + units) e) where
      -- A hole that is too short, and a hole that is long enough.
      short_hole : e - s < units → AllFail (fits used units) s (e + 1) × (e < s + units)
      short_hole h = elim end_found [
        | inl (q, all) ↦ absurd (omega arith)
        | inr (lo, k, hit, all) ↦
            (λ j jlo jh. blocked j e hit (omega arith) (omega arith), omega arith)
      ]

      long_hole : units ≤ e - s → AllFail (check used) s (s + units)
      long_hole h = AllFail-cons (check used) s (s + units) clear_here (λ j lo k. elim end_found [
        | inl (q, all) ↦ all j (omega arith) (omega arith)
        | inr (elo, ek, hit, all) ↦ all j (omega arith) (omega arith)
      ])

      beyond : 2 ≤ units → s < e
      beyond h = elim end_found [ inl (q, all) ↦ omega arith | inr (lo, k, hit, all) ↦ omega arith ]

module _ (used : CustomBitSet) (valid : IsWords used) (units : ℕ) (two : 2 ≤ units) where
  -- On 64-bit words and for two units or more, with a step of fuel for each unit from the start
  -- to the end of the window, the walk finds the first start from which that many clear units lie
  -- in the window, and nothing where there is no such start.
  pub walk-eq-search :
      (fuel start : ℕ)
      → window_max_units ≤ start + fuel
      → walk used units fuel start ≡ search (fits used units) start (window_max_units - start)
  unfolding walk
  walk-eq-search zero start enough =
      sym (none_left used units start (λ j lo h. absurd (omega arith)))
  walk-eq-search (suc fuel) start enough =
      let s = find_first_clear window_max_units used start in
      let e = find_first_set used (s + 1) (s + units) in
      let P : Option ℕ → Type 0 = λ o. o ≡ later used units start in
      let rest = walk-eq-search fuel (e + 1) in
      let end_found = find_first_set-Outcome used valid (s + 1) (s + units) (omega arith) in
      if_cases P (ltb start window_max_units)
        (λ inside_window.
          let (lo, hi, before, clear_at) =
            prefix used units start s (ground arith) (omega arith)
              (find_first_clear-Outcome used valid window_max_units start refl (ground arith)) in
          let skip = pass used units start s lo hi before in
          if_cases P (ltb window_max_units (s + units))
            (λ over.
              sym (skip ∙ none_left used units s (λ j jlo jh. outside used units j (ground arith))))
            (λ room.
              let c = clear_at (ground arith) in
              if_cases P (ltb (e - s) units)
                (λ short.
                  let (fails, near) = short_hole used units s e c end_found (ground arith) in
                  rest (omega (arith, beyond used units s e c end_found two))
                  ∙ sym (
                      skip
                      ∙ pass used units s (e + 1)
                          (omega (arith, beyond used units s e c end_found two)) (ground arith)
                          fails))
                (λ long. sym (
                  skip
                  ∙ hit_later used units s (ground arith) (
                      inside used units s (ground arith)
                        (long_hole used units s e c end_found (ground arith)))))))
        (λ past. sym (none_left used units start (λ j lo h. absurd (ground arith))))
