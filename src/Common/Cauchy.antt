-- ===== src/Common/Cauchy.antt =====
-- CauchyElement of SiameseCommon.h. gf256_inv, the inverse in the finite field, is a parameter.
use siamese.Prelude.{
  ℕ, ◌+◌, ◌-◌, ◌^◌, ◌≤◌, ◌<◌, ◌≡◌, ◌∙◌, sym, ap, arith, bit_xor, u8, ◌⊎◌, ◌≢◌, inl, inr,
}
use native.Mathlib.Decide.{dec_lt}
use siamese.Prelude.Xor.{bit_xor_cancel, bit_xor_self, bit_xor_bound, bit_xor_comm}

-- SIAMESE_CAUCHY_THRESHOLD.
abbrev pub cauchy_max_columns : ℕ
cauchy_max_columns = 64

abbrev pub cauchy_max_rows : ℕ
cauchy_max_rows = 256 - cauchy_max_columns

-- What is inverted.
unfoldable pub cauchy_sum : ℕ → ℕ → ℕ
cauchy_sum row column = bit_xor (u8 (row + cauchy_max_columns)) (u8 column)

unfoldable pub cauchy_element : (ℕ → ℕ) → ℕ → ℕ → ℕ
cauchy_element gf256_inv row column = gf256_inv (cauchy_sum row column)

-- What is documented of gf256_inv: of two bytes other than 0 that differ the inverses differ.
abbrev pub IsInverting : (ℕ → ℕ) → Type 0
IsInverting inv = (a b : ℕ) → 1 ≤ a → a < 2 ^ 8 → 1 ≤ b → b < 2 ^ 8 → inv a ≡ inv b → a ≡ b

cauchy_sum_bounds :
    (row column : ℕ)
    → row < cauchy_max_rows
    → column < cauchy_max_columns
    → (1 ≤ cauchy_sum row column) × (cauchy_sum row column < 2 ^ 8)
unfolding cauchy_sum
cauchy_sum_bounds row column h k =
    let x = u8 (row + cauchy_max_columns) in
    let y = u8 column in
    let not_zero : (bit_xor x y ≡ 0) → x ≡ y = λ z. sym (
      bit_xor_cancel 8 x y x (omega arith) (omega arith)
        (z ∙ sym (bit_xor_self 8 x (omega arith)))) in
    (
      elim (dec_lt 0 (bit_xor x y)) [
        | yes positive ↦ positive
        | no null ↦ let same = not_zero (omega arith) in absurd (omega arith)
      ],
      bit_xor_bound 8 x y (omega arith) (omega arith),
    )

cauchy_element-cancel :
    (gf256_inv : ℕ → ℕ)
    → IsInverting gf256_inv
    → (row row' column column' : ℕ) → row < cauchy_max_rows
    → row' < cauchy_max_rows
    → column < cauchy_max_columns
    → column' < cauchy_max_columns
    → (row ≡ row') ⊎ (column ≡ column')
    → cauchy_element gf256_inv row column ≡ cauchy_element gf256_inv row' column'
    → (row ≡ row') × (column ≡ column')
unfolding cauchy_element cauchy_sum
cauchy_element-cancel gf256_inv documented row row' column column' h h' k k' shared e =
    let bounds = cauchy_sum_bounds row column h k in
    let bounds' = cauchy_sum_bounds row' column' h' k' in
    let x = u8 (row + cauchy_max_columns) in
    let x' = u8 (row' + cauchy_max_columns) in
    let y = u8 column in
    let y' = u8 column' in
    let sums : bit_xor x y ≡ bit_xor x' y' =
      documented (cauchy_sum row column) (cauchy_sum row' column') bounds.0 bounds.1 bounds'.0
        bounds'.1 e in
    elim shared [
      | inl same ↦
          let cancelled =
            bit_xor_cancel 8 x y y' (omega arith) (omega arith)
              (sums ∙ ap (λ (z : ℕ). bit_xor z y') (let f : x' ≡ x = omega arith in f)) in
          (same, omega (arith, cancelled))
      | inr same ↦
          let cancelled = bit_xor_cancel 8 y x x' (omega arith) (omega arith) (
            bit_xor_comm 8 y x (omega arith) (omega arith)
            ∙ sums
            ∙ ap (bit_xor x') (let f : y' ≡ y = omega arith in f)
            ∙ bit_xor_comm 8 x' y (omega arith) (omega arith)) in
          (omega (arith, cancelled), same)
    ]

-- If gf256_inv gives bytes that differ and are not 0 inverses that differ, then two elements of the
-- Cauchy matrix at places that differ, in the same row or in the same column, differ.
pub cauchy_element_differs :
    (gf256_inv : ℕ → ℕ)
    → IsInverting gf256_inv
    → (row row' column column' : ℕ) → row < cauchy_max_rows
    → row' < cauchy_max_rows
    → column < cauchy_max_columns
    → column' < cauchy_max_columns
    → (row ≡ row') ⊎ (column ≡ column')
    → (row ≢ row') ⊎ (column ≢ column')
    → cauchy_element gf256_inv row column ≢ cauchy_element gf256_inv row' column'
cauchy_element_differs gf256_inv documented row row' column column' h h' k k' shared other e =
    let same =
      cauchy_element-cancel gf256_inv documented row row' column column' h h' k k' shared e in
    elim other [ inl differs ↦ differs same.0 | inr differs ↦ differs same.1 ]
