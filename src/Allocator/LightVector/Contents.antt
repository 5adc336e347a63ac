-- ===== src/Allocator/LightVector/Contents.antt =====
-- A LightVector as a list.
use siamese.Prelude.{
  ℕ, zero, suc, ◌+◌, ◌-◌, ◌*◌, ◌^◌, ◌≤◌, ◌<◌, ◌≡◌, refl, ap, ◌∙◌, arith, ◌⊎◌, inl, inr, u32,
}
use siamese.Prelude.{List, [], ◌∷◌, ◌++◌, Bool, true, false, ltb, if_cases, Option-cases}
use siamese.Prelude.Lists.{put, put_cases}
use siamese.Allocator.LightVector.{
  LightVector, NewArray, preallocated, new_allocated, set_size_copy, append,
}

module _ {A : Type 0} where
  -- n elements of an array, from a place on.
  abbrev pub listing : (ℕ → A) → ℕ → ℕ → List A
  listing f i zero = []
  listing f i (suc n) = f i ∷ listing f (suc i) n

  abbrev pub contents : LightVector A → List A
  contents v = listing v.elements 0 v.size

  listing-same :
      (f g : ℕ → A) (i n : ℕ)
      → ((j : ℕ) → i ≤ j → j < i + n → f j ≡ g j)
      → listing f i n ≡ listing g i n
  listing-same f g i zero same = refl
  listing-same f g i (suc n) same =
      ap (λ (x : A). x ∷ listing f (suc i) n) (same i (omega arith) (omega arith))
      ∙ ap (λ (xs : List A). g i ∷ xs)
          (listing-same f g (suc i) n (λ j lo h. same j (omega arith) (omega arith)))

  listing_last : (f : ℕ → A) (i n : ℕ) → listing f i (suc n) ≡ listing f i n ++ f (i + n) ∷ []
  listing_last f i zero = ap (λ (x : ℕ). f x ∷ []) (let e : i ≡ i + 0 = omega arith in e)
  listing_last f i (suc n) =
      ap (λ (xs : List A). f i ∷ xs) (listing_last f (suc i) n)
      ∙ ap (λ (x : ℕ). f i ∷ (listing f (suc i) n ++ f x ∷ []))
          (let e : suc i + n ≡ i + suc n = omega arith in e)

  abbrev pub IsVector : LightVector A → Type 0
  IsVector v = (v.size ≤ v.allocated) × (preallocated ≤ v.allocated)

  -- The outcome of a change of size: nothing has changed, or the vector is valid, of the size asked
  -- for, no less allocated, and P holds of it.
  abbrev pub IsSized : LightVector A → ℕ → (LightVector A → Type 0) → Bool × LightVector A → Type 0
  IsSized v n P (ok, w) =
      ((ok ≡ false) × (w ≡ v))
      ⊎ ((ok ≡ true) × IsVector w × (w.size ≡ n) × (v.allocated ≤ w.allocated) × P w)

  module _ (new_array : NewArray A) (v : LightVector A) (valid : IsVector v) where
    -- SetSize_Copy of a valid vector to a size whose triple is below 2 ^ 32 either fails and changes
    -- nothing, or leaves a valid vector of that size, with no less room, that keeps the elements at
    -- the places that both sizes have.
    pub set_size_copy-IsSized :
        (n : ℕ)
        → n * 3 < 2 ^ 32
        → IsSized v n
            (λ w. (i : ℕ) → i < n → i < v.size → w.elements i ≡ v.elements i)
            (set_size_copy new_array n v)
    unfolding set_size_copy
    set_size_copy-IsSized n small =
        let P = IsSized v n (λ w. (i : ℕ) → i < n → i < v.size → w.elements i ≡ v.elements i) in
        if_cases P (ltb v.allocated n)
          (λ t. elim (Option-cases (new_array (new_allocated n))) [
            | inl e ↦ rw (e) (inl (refl, refl))
            | inr (new_data, e) ↦
                rw (e) (
                  inr
                    (refl, (omega arith, ground arith), refl, ground arith, λ i h k. ground arith))
          ])
          (λ t. inr (refl, (ground arith, valid.1), refl, omega arith, λ i h k. refl))

    -- Append to a valid vector of fewer than 2 ^ 30 elements either fails and changes nothing, or
    -- leaves a valid vector, with no less room, that holds the elements that it held and then the
    -- new one.
    pub append-IsSized :
        (rhs : A)
        → v.size < 2 ^ 30
        → IsSized v (suc v.size) (λ w. contents w ≡ contents v ++ rhs ∷ []) (append new_array rhs v)
    unfolding append
    append-IsSized rhs small =
        let new_size = u32 (v.size + 1) in
        let place = u32 (new_size + 2 ^ 32 - 1) in
        let grown : new_size ≡ suc v.size = omega arith in
        let last : place ≡ v.size = omega arith in
        let r = set_size_copy new_array new_size v in
        let P = IsSized v (suc v.size) (λ w. contents w ≡ contents v ++ rhs ∷ []) in
        elim (set_size_copy-IsSized new_size (omega arith)) [
          | inl (refused, same) ↦ if_cases P r.0 (λ t. absurd cc) (λ t. inl (refl, same))
          | inr (done, ok, sized, more, kept) ↦
              let f : ℕ → A = put r.1.elements place rhs in
              let front : (j : ℕ) → 0 ≤ j → j < 0 + v.size → f j ≡ v.elements j = λ j lo h.
                put_cases (λ (x : A). x ≡ v.elements j) r.1.elements place rhs j
                  (λ e. absurd (omega arith)) (λ t. kept j (omega arith) (omega arith)) in
              let back : f (0 + v.size) ≡ rhs =
                put_cases (λ (x : A). x ≡ rhs) r.1.elements place rhs (0 + v.size) (λ e. refl)
                  (λ t. absurd (ground arith)) in
              if_cases P r.0
                (λ t. inr (
                  refl,
                  ok,
                  sized ∙ grown,
                  more,
                  ap (listing f 0) (sized ∙ grown)
                      ∙ listing_last f 0 v.size
                      ∙ ap (λ (xs : List A). xs ++ f (0 + v.size) ∷ [])
                          (listing-same f v.elements 0 v.size front)
                      ∙ ap (λ (x : A). contents v ++ x ∷ []) back,
                ))
                (λ t. absurd cc)
        ]
