-- ===== src/Allocator/System/Bump.antt =====
-- A heap for examples, which gives each block behind all others.
use siamese.Prelude.{
  ℕ, ◌+◌, ◌≤◌, ◌≡◌, ap, arith, Option, some, none, inr, List, [], ◌∷◌, ltb, if◌then◌else◌,
}
use siamese.Allocator.System.{Block, Calloc}
use siamese.Allocator.System.Blocks.{IsApart, IsFresh}

-- A heap that never gives a block twice: the new one lies behind all others.
unfoldable pub top : List Block → ℕ
top [] = 16
top (b ∷ bs) = if ltb (top bs) (b.address + b.size) then b.address + b.size else top bs

top_positive : (bs : List Block) → 1 ≤ top bs
unfolding top
top_positive [] = omega arith
top_positive (b ∷ bs) = ground (arith, top_positive bs)

above_top : (k n : ℕ) (bs : List Block) → top bs ≤ k → IsApart k n bs
unfolding top
above_top k n [] h = tt
above_top k n (b ∷ bs) h = (inr (ground arith), above_top k n bs (ground arith))

abbrev pub bump : Calloc
bump bs n = some (top bs)

pub bump-IsFresh : IsFresh bump
bump-IsFresh bs n a e =
    let same : top bs ≡ a = ap (λ (o : Option ℕ). elim o [ none ↦ 0 | some x ↦ x ]) e in
    (omega (arith, top_positive bs), above_top a n bs (omega arith))
