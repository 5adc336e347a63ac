-- ===== src/Common/Examples.antt =====
-- Tests on concrete columns and rows, and the theorems at inputs that meet their conditions.
use siamese.Prelude.{ℕ, ◌≡◌, ◌≢◌, refl, arith, ◌-◌, inl, inr}
use siamese.Common.Cauchy.{cauchy_sum, cauchy_element, IsInverting, cauchy_element_differs}
use siamese.Common.Columns.{add_columns, increment_column1}
use siamese.Common.Coefficients.{get_row_opcode, int32_hash}

wrap_test : increment_column1 0x3FFFFF ≡ 0
unfolding increment_column1 add_columns
wrap_test = refl

opcode_test : (get_row_opcode 0 0 ≡ 23) × (get_row_opcode 1 0 ≡ 54) × (get_row_opcode 7 254 ≡ 52)
unfolding get_row_opcode int32_hash
opcode_test = (refl, refl, refl)

-- A function that keeps bytes apart, in place of the inverse.
abbrev reversed : ℕ → ℕ
reversed x = 256 - x

reversed-IsInverting : IsInverting reversed
reversed-IsInverting a b h k l m e = omega arith

cauchy_test : (cauchy_sum 0 0 ≡ 64) × (cauchy_sum 191 63 ≡ 192)
unfolding cauchy_sum
cauchy_test = (refl, refl)

cauchy_element_differs_example : cauchy_element reversed 7 63 ≢ cauchy_element reversed 7 5
cauchy_element_differs_example =
    cauchy_element_differs reversed reversed-IsInverting 7 7 63 5 (omega arith) (omega arith)
      (omega arith) (omega arith) (inl refl) (inr (λ e. absurd (omega arith)))
