-- ===== src/Common/Matrix/Rows.antt =====
-- What the loop over the rows of a matrix copies.
use siamese.Prelude.{
  ℕ, zero, suc, ◌+◌, ◌-◌, ◌*◌, ◌≤◌, ◌<◌, ◌≡◌, refl, ap, ◌∙◌, arith, ◌⊎◌, inl, inr,
}
use siamese.Prelude.Memory.{Memory}
use siamese.Buffer.{copied}
use siamese.Common.Matrix.{copy_rows}

-- The place of an element of a row lies in the first n rows.
pub place_bound : (i n j w : ℕ) → i < n → j < w → i * w + j < n * w
place_bound i zero j w h k = absurd (omega arith)
place_bound zero (suc n) j w h k = grind arith
place_bound (suc i) (suc n) j w h k = grind (arith, place_bound i n j w (omega arith) k)

copied-inside : (m : Memory) (d s c j : ℕ) → j < c → copied m d s c (d + j) ≡ m (s + j)
copied-inside m d s c j h =
    ground (arith, ap m (let e : s + (d + j - d) ≡ s + j = omega arith in e))

copied-outside : (m : Memory) (d s c j : ℕ) → (j < d) ⊎ (d + c ≤ j) → copied m d s c j ≡ m j
copied-outside m d s c j (inl h) = ground arith
copied-outside m d s c j (inr h) = ground arith

first_row : (d n w : ℕ) → d + suc n * w ≡ d + w + n * w
first_row d n w = grind arith

-- Bytes outside the destination stay.
pub copy_rows-outside :
    (n : ℕ) (m : Memory) (d s ds ss c j : ℕ)
    → c ≤ ds
    → (j < d) ⊎ (d + n * ds ≤ j)
    → copy_rows n m d s ds ss c j ≡ m j
unfolding copy_rows
copy_rows-outside zero m d s ds ss c j fits out = refl
copy_rows-outside (suc n) m d s ds ss c j fits (inl h) =
    copy_rows-outside n (copied m d s c) (d + ds) (s + ss) ds ss c j fits (inl (omega arith))
    ∙ copied-outside m d s c j (inl h)
copy_rows-outside (suc n) m d s ds ss c j fits (inr h) =
    copy_rows-outside n (copied m d s c) (d + ds) (s + ss) ds ss c j fits
      (inr (omega (arith, first_row d n ds)))
    ∙ copied-outside m d s c j (inr (omega (arith, first_row d n ds)))

-- An element of a row, in the destination and in the source.
pub copy_rows-inside :
    (n : ℕ) (m : Memory) (d s ds ss c i j : ℕ)
    → c ≤ ds
    → c ≤ ss
    → i < n
    → j < c
    → (s + n * ss ≤ d) ⊎ (d + n * ds ≤ s)
    → copy_rows n m d s ds ss c (d + (i * ds + j)) ≡ m (s + (i * ss + j))
unfolding copy_rows
copy_rows-inside zero m d s ds ss c i j fits fits' h k apart = absurd (omega arith)
copy_rows-inside (suc n) m d s ds ss c zero j fits fits' h k apart =
    ap (copy_rows n (copied m d s c) (d + ds) (s + ss) ds ss c)
      (let e : d + (0 * ds + j) ≡ d + j = grind arith in e)
    ∙ copy_rows-outside n (copied m d s c) (d + ds) (s + ss) ds ss c (d + j) fits
        (inl (omega arith))
    ∙ copied-inside m d s c j k
    ∙ ap m (let e : s + j ≡ s + (0 * ss + j) = grind arith in e)
copy_rows-inside (suc n) m d s ds ss c (suc i) j fits fits' h k apart =
    let apart' : (s + ss + n * ss ≤ d + ds) ⊎ (d + ds + n * ds ≤ s + ss) = elim apart [
      | inl l ↦ inl (omega (arith, first_row s n ss))
      | inr l ↦ inr (omega (arith, first_row d n ds))
    ] in
    let x = s + ss + (i * ss + j) in
    let out : (x < d) ⊎ (d + c ≤ x) = elim apart [
      | inl l ↦
          inl (omega (arith, first_row s n ss, place_bound i n j ss (omega arith) (omega arith)))
      | inr l ↦ inr (omega (arith, first_row d n ds))
    ] in
    ap (copy_rows n (copied m d s c) (d + ds) (s + ss) ds ss c)
      (let e : d + (suc i * ds + j) ≡ d + ds + (i * ds + j) = grind arith in e)
    ∙ copy_rows-inside n (copied m d s c) (d + ds) (s + ss) ds ss c i j fits fits' (omega arith) k
        apart'
    ∙ copied-outside m d s c x out
    ∙ ap m (let e : x ≡ s + (suc i * ss + j) = grind arith in e)
