-- ===== src/Common/DataBuffer/Growth.antt =====
-- The bytes of a buffer through GrowZeroPadded.
use siamese.Prelude.{ℕ, ◌+◌, ◌-◌, ◌≤◌, ◌<◌, ◌≡◌, refl, sym, ap, ◌∙◌, arith, ◌⊎◌, inl, inr}
use siamese.Prelude.{
  List, [], ◌∷◌, ◌++◌, Bool, true, false, ◌||◌, ltb, ◌==◌, if_cases, or-true, or-false, Option,
  none, some, Option-cases,
}
use mathlib.Core.List.{append-nil}
use mathlib.Core.Path.{subst}
use siamese.Allocator.System.{System, Calloc, zeroed}
use siamese.Allocator.System.Blocks.{IsInside, IsFresh}
use siamese.Buffer.{cleared}
use siamese.Buffer.Contents.{bytes_at, zeros, bytes_at-same, bytes_at-zeros}
use siamese.Common.Matrix.{block_size}
use siamese.Common.DataBuffer.{State, reallocate_zeroed, pad, grow_zero_padded}

-- The block of a valid buffer has exactly its bytes, as Reallocate gave it; a null buffer has none.
abbrev pub IsBuffer : State → Type 0
IsBuffer s =
    ((s.buffer.data_ptr ≡ 0) × (s.buffer.bytes ≡ 0))
    ⊎ ((1 ≤ s.buffer.data_ptr)
        × IsInside s.buffer.data_ptr s.buffer.bytes (s.system).blocks
        × (block_size (s.system).blocks s.buffer.data_ptr ≡ s.buffer.bytes))

abbrev pub contents : State → List ℕ
contents s = bytes_at (s.system).memory s.buffer.data_ptr s.buffer.bytes

-- A buffer that has a block is to have more bytes.
abbrev pub Outgrows : State → ℕ → Type 0
Outgrows s bytes = (1 ≤ s.buffer.data_ptr) × (s.buffer.bytes < bytes)

-- The outcome of GrowZeroPadded: undefined, for a buffer that has a block and is to have more bytes;
-- else a failure with a null buffer, or a valid buffer that holds what it held and then zeros.
abbrev pub IsPadded : State → ℕ → Option (Bool × State) → Type 0
IsPadded s bytes none = Outgrows s bytes
IsPadded s bytes (some (ok, t)) =
    ((s.buffer.data_ptr ≡ 0) ⊎ (bytes ≤ s.buffer.bytes))
    × (((ok ≡ false) × (t.buffer.data_ptr ≡ 0) × (t.buffer.bytes ≡ 0) × (t.system ≡ s.system))
        ⊎ ((ok ≡ true) × IsBuffer t × (contents t ≡ contents s ++ zeros (bytes - s.buffer.bytes))))

abbrev padded : ℕ → ℕ → Option (ℕ × System) → Option (Bool × State)
padded old_bytes bytes reallocated = elim reallocated [
  | none ↦ none
  | some r ↦ some (pad old_bytes bytes r)
]

-- A buffer that has a block of just its bytes has too few for memcpy.
outgrown :
    (calloc : Calloc) (s : State) (bytes : ℕ)
    → 1 ≤ s.buffer.data_ptr
    → s.buffer.bytes < bytes
    → block_size (s.system).blocks s.buffer.data_ptr ≡ s.buffer.bytes
    → reallocate_zeroed calloc s.system s.buffer.data_ptr bytes ≡ none
unfolding reallocate_zeroed
outgrown calloc s bytes positive more exact =
    let P = λ (o : Option (ℕ × System)). o ≡ none in
    let q = s.buffer.data_ptr in
    elim (Option-cases (calloc (s.system).blocks bytes)) [
      | inl e ↦
          rw (e, reallocate_zeroed) (if_cases P (q == 0) (λ t. absurd (ground arith)) (λ t. refl))
      | inr (p, e) ↦
          rw (e, reallocate_zeroed)
            (if_cases P (q == 0) (λ t. absurd (ground arith))
              (λ t.
                if_cases P (ltb (block_size (s.system).blocks q) bytes) (λ u. refl)
                  (λ u. absurd (ground arith))))
    ]

-- A null buffer gets a cleared block, or stays null.
module _ (calloc : Calloc) (fresh : IsFresh calloc) (s : State) (bytes : ℕ)
    (null : s.buffer.data_ptr ≡ 0) (empty : s.buffer.bytes ≡ 0) where
  new_block-IsPadded :
      (p : ℕ)
      → calloc (s.system).blocks bytes ≡ some p
      → IsPadded s bytes (
          some (
            pad s.buffer.bytes bytes (
              p,
              record {
                memory = zeroed (s.system).memory p bytes;
                blocks = record { address = p; size = bytes } ∷ (s.system).blocks;
              },
            )))
  unfolding pad
  new_block-IsPadded p e =
      let (positive, apart) = fresh (s.system).blocks bytes p e in
      let new =
        cleared (zeroed (s.system).memory p bytes) (p + s.buffer.bytes) (bytes - s.buffer.bytes) in
      let more : bytes ≡ bytes - s.buffer.bytes = omega arith in
      let held : contents s ≡ [] = ap (bytes_at (s.system).memory s.buffer.data_ptr) empty in
      let zero_bytes : bytes_at new p bytes ≡ zeros bytes =
        bytes_at-same new (λ j. 0) p 0 bytes (λ i l. ground arith) ∙ bytes_at-zeros 0 bytes in
      if_cases (λ (r : Bool × State). IsPadded s bytes (some r)) (p == 0)
        (λ t. absurd (ground arith))
        (λ t. (
          inl null,
          inr (
            refl,
            inr (positive, inl (omega arith, omega arith), ground arith),
            zero_bytes
                ∙ ap zeros more
                ∙ ap (λ (xs : List ℕ). xs ++ zeros (bytes - s.buffer.bytes)) (sym held),
          ),
        ))

  null_refused : IsPadded s bytes (some (pad s.buffer.bytes bytes (0, s.system)))
  unfolding pad
  null_refused = (inl null, inl (refl, refl, refl, refl))

  -- Reallocate of a null pointer gives what calloc gives, cleared.
  null_refuses :
      calloc (s.system).blocks bytes ≡ none
      → reallocate_zeroed calloc s.system s.buffer.data_ptr bytes ≡ some (0, s.system)
  unfolding reallocate_zeroed
  null_refuses e =
      rw (e, reallocate_zeroed)
        (if_cases (λ (o : Option (ℕ × System)). o ≡ some (0, s.system)) (s.buffer.data_ptr == 0)
          (λ t. refl) (λ t. absurd (ground arith)))

  abbrev new_block : ℕ → System
  new_block p = record {
    memory = zeroed (s.system).memory p bytes;
    blocks = record { address = p; size = bytes } ∷ (s.system).blocks;
  }

  null_allocates :
      (p : ℕ)
      → calloc (s.system).blocks bytes ≡ some p
      → reallocate_zeroed calloc s.system s.buffer.data_ptr bytes ≡ some (p, new_block p)
  unfolding reallocate_zeroed
  null_allocates p e =
      rw (e, reallocate_zeroed)
        (if_cases (λ (o : Option (ℕ × System)). o ≡ some (p, new_block p)) (s.buffer.data_ptr == 0)
          (λ t. refl) (λ t. absurd (ground arith)))

  null-IsPadded :
      IsPadded s bytes
        (padded s.buffer.bytes bytes (reallocate_zeroed calloc s.system s.buffer.data_ptr bytes))
  null-IsPadded =
      let P = λ (o : Option (ℕ × System)). IsPadded s bytes (padded s.buffer.bytes bytes o) in
      elim (Option-cases (calloc (s.system).blocks bytes)) [
        | inl e ↦ subst P (sym (null_refuses e)) null_refused
        | inr (p, e) ↦ subst P (sym (null_allocates p e)) (new_block-IsPadded p e)
      ]

-- If calloc returns fresh blocks, GrowZeroPadded of a valid buffer on pktalloc, one that is null and
-- empty or whose block has exactly its bytes, is undefined exactly where the buffer has a block and
-- is to have more bytes; else it either fails with a null buffer and changes nothing of the heap, or
-- leaves a valid buffer that holds the bytes that it held and then zeros up to the size asked for,
-- none if it was as large already.
pub grow_zero_padded-IsPadded :
    (calloc : Calloc)
    → IsFresh calloc
    → (bytes : ℕ) (s : State) → IsBuffer s
    → IsPadded s bytes (grow_zero_padded calloc bytes s)
unfolding grow_zero_padded
grow_zero_padded-IsPadded calloc fresh bytes s valid =
    let null = s.buffer.data_ptr == 0 in
    let less = ltb s.buffer.bytes bytes in
    if_cases (IsPadded s bytes) (null || less)
      (λ t. elim valid [
        | inl (is_null, empty) ↦ null-IsPadded calloc fresh s bytes is_null empty
        | inr (positive, inside, exact) ↦
            let more : s.buffer.bytes < bytes = elim (or-true null less t) [
              | inl u ↦ absurd (ground arith)
              | inr u ↦ ground arith
            ] in
            subst (λ (o : Option (ℕ × System)). IsPadded s bytes (padded s.buffer.bytes bytes o))
              (sym (outgrown calloc s bytes positive more exact)) (positive, more)
      ])
      (λ t.
        let enough : bytes ≤ s.buffer.bytes = ground (arith, (or-false null less t).1) in
        let nothing : bytes - s.buffer.bytes ≡ 0 = omega arith in
        (
          inr enough,
          inr (
            refl,
            valid,
            sym (append-nil (contents s)) ∙ ap (λ (n : ℕ). contents s ++ zeros n) (sym nothing),
          ),
        ))
