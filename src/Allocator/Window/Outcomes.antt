-- ===== src/Allocator/Window/Outcomes.antt =====
-- What a search bit by bit returns, and with it the two searches of a bit set.
use siamese.Prelude.{ℕ, zero, suc, ◌+◌, ◌-◌, ◌*◌, ◌%◌, ◌≤◌, ◌<◌, ◌≡◌, refl, sym, ap, ◌∙◌, arith}
use siamese.Prelude.{Bool, true, false, not, none, some, ◌⊎◌, inl, inr, if◌then◌else◌, if_cases}
use mathlib.Core.Path.{subst}
use native.Mathlib.Decide.{dec_lt}
use siamese.Allocator.BitSet.{CustomBitSet, check, find_first_clear, find_first_set, word_count}
use siamese.Allocator.BitSet.Words.{IsWords}
use siamese.Allocator.BitSet.Search.{
  search, found_or, unset, find_first_clear-eq-search, find_first_set-eq-search,
}

-- Every place from lo up to, not including, hi fails the test.
abbrev pub AllFail : (ℕ → Bool) → ℕ → ℕ → Type 0
AllFail test lo hi = (j : ℕ) → lo ≤ j → j < hi → test j ≡ false

-- r is the default where every place fails, else the first place that passes.
abbrev pub Outcome : (ℕ → Bool) → ℕ → ℕ → ℕ → ℕ → Type 0
Outcome test lo hi d r =
    ((r ≡ d) × AllFail test lo hi) ⊎ ((lo ≤ r) × (r < hi) × (test r ≡ true) × AllFail test lo r)

module _ (test : ℕ → Bool) where
  pub AllFail-cons : (i hi : ℕ) → test i ≡ false → AllFail test (suc i) hi → AllFail test i hi
  AllFail-cons i hi t all j lo h = elim (dec_lt i j) [
    | yes l ↦ all j (omega arith) h
    | no l ↦ let e : j ≡ i = omega arith in ap test e ∙ t
  ]

  extend :
      (i n d r : ℕ)
      → test i ≡ false
      → Outcome test (suc i) (suc i + n) d r
      → Outcome test i (i + suc n) d r
  extend i n d r t (inl (e, all)) =
      inl (e, λ j lo h. AllFail-cons i (suc i + n) t all j lo (omega arith))
  extend i n d r t (inr (lo, h, hit, all)) =
      inr (omega arith, omega arith, hit, AllFail-cons i r t all)

  pub search-Outcome : (n i d : ℕ) → Outcome test i (i + n) d (found_or (search test i n) d)
  unfolding search
  search-Outcome zero i d = inl (refl, λ j lo h. absurd (omega arith))
  search-Outcome (suc n) i d =
      let step = search-Outcome n (suc i) d in
      if_cases (λ o. Outcome test i (i + suc n) d (found_or o d)) (test i)
        (λ t. inr (omega arith, omega arith, t, λ j lo h. absurd (omega arith)))
        (λ t. extend i n d (found_or (search test (suc i) n) d) t step)

  pub search_hit : (i n : ℕ) → test i ≡ true → search test i (suc n) ≡ some i
  unfolding search
  search_hit i n t = ap (λ (c : Bool). if c then some i else search test (suc i) n) t

  pub search_skip :
      (m i n : ℕ) → AllFail test i (i + m) → search test i (m + n) ≡ search test (i + m) n
  unfolding search
  search_skip zero i n all =
      let e : zero + n ≡ n = omega arith in
      let f : i ≡ i + zero = omega arith in ap (search test i) e ∙ ap (λ (x : ℕ). search test x n) f
  search_skip (suc m) i n all =
      let e : suc m + n ≡ suc (m + n) = omega arith in
      let f : suc i + m ≡ i + suc m = omega arith in
      ap (search test i) e
      ∙ ap (λ (c : Bool). if c then some i else search test (suc i) (m + n))
          (all i (omega arith) (omega arith))
      ∙ search_skip m (suc i) n (λ j lo h. all j (omega arith) (omega arith))
      ∙ ap (λ (x : ℕ). search test x n) f

  pub search_nothing : (n i : ℕ) → AllFail test i (i + n) → search test i n ≡ none
  unfolding search
  search_nothing zero i all = refl
  search_nothing (suc n) i all =
      ap (λ (c : Bool). if c then some i else search test (suc i) n)
        (all i (omega arith) (omega arith))
      ∙ search_nothing n (suc i) (λ j lo h. all j (omega arith) (omega arith))

pub not-false : (b : Bool) → not b ≡ false → b ≡ true
not-false true h = refl
not-false false h = sym h

pub not-true : (b : Bool) → not b ≡ true → b ≡ false
not-true true h = sym h
not-true false h = refl

module _ (used : CustomBitSet) (valid : IsWords used) where
  -- The clear bit found, with no clear bit before it.
  pub find_first_clear-Outcome :
      (n a : ℕ) → n % 64 ≡ 0 → a < n → Outcome (unset used) a n n (find_first_clear n used a)
  find_first_clear-Outcome n a whole h =
      let e : a + (n - a) ≡ n = omega arith in
      subst (λ (x : ℕ). Outcome (unset used) a x n (find_first_clear n used a)) e
        (subst (Outcome (unset used) a (a + (n - a)) n)
          (sym (find_first_clear-eq-search used valid n a whole h))
          (search-Outcome (unset used) (n - a) a n))

  pub find_first_set-Outcome :
      (a e : ℕ) → a < e → Outcome (check used) a (word_count e * 64) e (find_first_set used a e)
  find_first_set-Outcome a e h =
      let top = word_count e * 64 in
      let s : a + (top - a) ≡ top = omega arith in
      subst (λ (x : ℕ). Outcome (check used) a x e (find_first_set used a e)) s
        (subst (Outcome (check used) a (a + (top - a)) e)
          (sym (find_first_set-eq-search used valid a e h))
          (search-Outcome (check used) (top - a) a e))
