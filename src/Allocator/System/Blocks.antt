-- ===== src/Allocator/System/Blocks.antt =====
-- What the blocks of the system's heap give: aligned memory that overlaps nothing in use, and that
-- is given back whole.
use siamese.Prelude.{ℕ, ◌+◌, ◌%◌, ◌≤◌, ◌<◌, ◌≡◌, refl, arith, some, ◌⊎◌, inl, inr}
use siamese.Prelude.{List, [], ◌∷◌, Option-cases}
use siamese.Allocator.System.{Block, System, Calloc, alignment_bytes, simd_safe_allocate}

-- n bytes at a meet no block in use.
abbrev pub IsApart : ℕ → ℕ → List Block → Type 0
IsApart a n [] = Unit {0}
IsApart a n (b ∷ bs) = ((a + n ≤ b.address) ⊎ (b.address + b.size ≤ a)) × IsApart a n bs

-- n bytes at a lie in a block in use.
abbrev pub IsInside : ℕ → ℕ → List Block → Type 0
IsInside a n [] = 1 ≤ 0
IsInside a n (b ∷ bs) = ((b.address ≤ a) × (a + n ≤ b.address + b.size)) ⊎ IsInside a n bs

-- What is documented of calloc: a block that it returns is not null and meets no block in use.
abbrev pub IsFresh : Calloc → Type 0
IsFresh calloc = (bs : List Block) (n a : ℕ) → calloc bs n ≡ some a → (0 < a) × IsApart a n bs

pub IsInside-IsApart :
    (a n b k : ℕ) (bs : List Block) → IsInside a n bs → IsApart b k bs → (a + n ≤ b) ⊎ (b + k ≤ a)
IsInside-IsApart a n b k [] i p = absurd (omega arith)
IsInside-IsApart a n b k (c ∷ cs) (inl i) (inl p, q) = inr (omega arith)
IsInside-IsApart a n b k (c ∷ cs) (inl i) (inr p, q) = inl (omega arith)
IsInside-IsApart a n b k (c ∷ cs) (inr i) (p, q) = IsInside-IsApart a n b k cs i q

-- The outcome of an aligned allocation: nothing, or aligned memory that lies in a new block, meets no
-- bytes in use, and leaves the other blocks in use.
abbrev pub IsAligned : System → ℕ → ℕ × System → Type 0
IsAligned system size (p, system') =
    ((p ≡ 0) × (system' ≡ system))
    ⊎ ((1 ≤ p)
        × (p % alignment_bytes ≡ 0)
        × ((v n : ℕ) → IsInside v n system.blocks → (v + n ≤ p) ⊎ (p + size ≤ v))
        × IsInside p size system'.blocks
        × ((v n : ℕ) → IsInside v n system.blocks → IsInside v n system'.blocks))

-- If calloc returns fresh blocks, SIMDSafeAllocate either returns the null pointer and changes
-- nothing, or returns a pointer divisible by 16 whose bytes lie in a new block and meet nothing that
-- lies in the blocks in use, which stay in use.
pub simd_safe_allocate-IsAligned :
    (calloc : Calloc)
    → IsFresh calloc
    → (system : System) (size : ℕ) → IsAligned system size (simd_safe_allocate calloc system size)
unfolding simd_safe_allocate
simd_safe_allocate-IsAligned calloc fresh system size =
    elim (Option-cases (calloc system.blocks (alignment_bytes + size))) [
      | inl e ↦ rw (e, simd_safe_allocate) (inl (refl, refl))
      | inr (start, e) ↦
          let (positive, free_block) = fresh system.blocks (alignment_bytes + size) start e in
          rw (e, simd_safe_allocate)
            (inr (
              omega arith,
              omega arith,
              λ v n i.
                  elim (IsInside-IsApart v n start (alignment_bytes + size) system.blocks i
                    free_block) [ inl h ↦ inl (omega arith) | inr h ↦ inr (omega arith) ],
              inl (omega arith, omega arith),
              λ v n i. inr i,
            ))
    ]

pub IsInside-part :
    (a n b k : ℕ) (bs : List Block) → IsInside a n bs → a ≤ b → b + k ≤ a + n → IsInside b k bs
IsInside-part a n b k [] i lo hi = i
IsInside-part a n b k (c ∷ cs) (inl i) lo hi = inl (omega arith)
IsInside-part a n b k (c ∷ cs) (inr i) lo hi = inr (IsInside-part a n b k cs i lo hi)
