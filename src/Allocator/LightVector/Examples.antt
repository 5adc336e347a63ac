-- ===== src/Allocator/LightVector/Examples.antt =====
-- A vector that outgrows its first array: tests, and the theorems at inputs that meet their conditions.
use siamese.Prelude.{ℕ, ◌≡◌, refl, arith, some, [], ◌∷◌, ◌++◌}
use siamese.Allocator.LightVector.{
  LightVector, NewArray, empty_vector, set_size_no_copy, set_size_copy, append,
}
use siamese.Allocator.LightVector.Contents.{contents, IsVector, IsSized, append-IsSized}

-- New arrays hold nines.
abbrev nines : NewArray ℕ
nines n = some (λ i. 9)

-- 25 elements, all there is room for, that count up.
abbrev counting : LightVector ℕ
counting = record { elements = λ i. i; size = 25; allocated = 25 }

counting-IsVector : IsVector counting
counting-IsVector = (omega arith, omega arith)

two_appends_test : (append nines 7 (append nines 5 (empty_vector (λ i. i))).1).1.size ≡ 2
unfolding append set_size_copy
two_appends_test = refl

truncated_test : contents (set_size_copy nines 3 counting).1 ≡ 0 ∷ 1 ∷ 2 ∷ []
unfolding set_size_copy
truncated_test = refl

dropped_test : (set_size_no_copy nines 40 counting).1.elements 3 ≡ 9
unfolding set_size_no_copy
dropped_test = refl

append-IsSized_example :
    IsSized counting 26
      (λ w. contents w ≡ contents counting ++ 100 ∷ [])
      (append nines 100 counting)
append-IsSized_example = append-IsSized nines counting counting-IsVector 100 (omega arith)
