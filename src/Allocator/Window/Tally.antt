-- ===== src/Allocator/Window/Tally.antt =====
-- The count of used units when a run of them is taken or given back.
use siamese.Prelude.{ℕ, zero, suc, ◌+◌, ◌-◌, ◌≤◌, ◌<◌, ◌≡◌, refl, ap, ◌∙◌, arith}
use siamese.Prelude.{Bool, true, false, ltb, leb, if◌then◌else◌, if_cases}
use siamese.Allocator.BitSet.{CustomBitSet, check, set_range, clear_range}
use siamese.Allocator.BitSet.Ranges.{check-set_range, check-clear_range}
use siamese.Allocator.BitSet.Count.{tally, tally-add}

-- Equal tests from i on.
tally_same :
    (test test' : ℕ → Bool) (n i : ℕ)
    → ((j : ℕ) → i ≤ j → j < i + n → test j ≡ test' j)
    → tally test i n ≡ tally test' i n
unfolding tally
tally_same test test' zero i same = refl
tally_same test test' (suc n) i same =
    let rest = tally_same test test' n (suc i) (λ j lo h. same j (omega arith) (omega arith)) in
    ap (λ (b : Bool). (if b then 1 else 0) + tally test (suc i) n)
      (same i (omega arith) (omega arith))
    ∙ ap (λ (x : ℕ). (if test' i then 1 else 0) + x) rest

-- A run of one value.
pub tally_run :
    (test : ℕ → Bool) (b : Bool) (n i : ℕ)
    → ((j : ℕ) → i ≤ j → j < i + n → test j ≡ b)
    → tally test i n ≡ (if b then n else 0)
unfolding tally
tally_run test b zero i same = if_cases (λ x. 0 ≡ x) b (λ t. refl) (λ t. refl)
tally_run test b (suc n) i same =
    let rest = tally_run test b n (suc i) (λ j lo h. same j (omega arith) (omega arith)) in
    ap (λ (c : Bool). (if c then 1 else 0) + tally test (suc i) n)
      (same i (omega arith) (omega arith))
    ∙ ap (λ (x : ℕ). (if b then 1 else 0) + x) rest
    ∙ run_suc b n
  where
    run_suc :
        (b : Bool) (n : ℕ) → (if b then 1 else 0) + (if b then n else 0) ≡ (if b then suc n else 0)
    run_suc true n = omega arith
    run_suc false n = refl

module _ (used : CustomBitSet) (a n top : ℕ) (fit : a + n ≤ top) where
  -- Three parts of a count.
  tally_parts :
      (test : ℕ → Bool)
      → tally test 0 top ≡ tally test 0 a + tally test a n + tally test (a + n) (top - (a + n))
  tally_parts test =
      let e : top ≡ a + (n + (top - (a + n))) = omega arith in
      let f : 0 + a ≡ a = omega arith in
      omega (
        arith,
        ap (tally test 0) e,
        tally-add test a 0 (n + (top - (a + n))),
        ap (λ (x : ℕ). tally test x (n + (top - (a + n)))) f,
        tally-add test n a (top - (a + n)),
      )

  module _ (test : ℕ → Bool) (b : Bool)
      (after : (j : ℕ)
        → test j
          ≡ (if leb a j then if ltb j (a + n) then b else check used j else check used j)) where
    tally_outside :
        tally test 0 top
        ≡ tally (check used) 0 a + (if b then n else 0) + tally (check used) (a + n) (top - (a + n))
    tally_outside = omega (
      arith,
      tally_parts test,
      tally_same test (check used) a 0 (λ j lo h. after j ∙ ground arith),
      tally_run test b n a (λ j lo h. after j ∙ ground arith),
      tally_same test (check used) (top - (a + n)) (a + n) (λ j lo h. after j ∙ ground arith),
    )

  -- Setting a clear run adds its length, clearing a set run removes it.
  pub tally-set_range :
      ((j : ℕ) → a ≤ j → j < a + n → check used j ≡ false)
      → tally (check (set_range used a (a + n))) 0 top ≡ tally (check used) 0 top + n
  tally-set_range run = omega (
    arith,
    tally_outside (check (set_range used a (a + n))) true (check-set_range used a (a + n)),
    tally_parts (check used),
    tally_run (check used) false n a run,
  )

  pub tally-clear_range :
      ((j : ℕ) → a ≤ j → j < a + n → check used j ≡ true)
      → tally (check (clear_range used a (a + n))) 0 top + n ≡ tally (check used) 0 top
  tally-clear_range run = omega (
    arith,
    tally_outside (check (clear_range used a (a + n))) false (check-clear_range used a (a + n)),
    tally_parts (check used),
    tally_run (check used) true n a run,
  )
