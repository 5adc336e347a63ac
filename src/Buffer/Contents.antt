-- ===== src/Buffer/Contents.antt =====
-- The bytes of a buffer as a list: what Append and GrowZeroPadded make of it.
use siamese.Prelude.{
  ℕ, zero, suc, ◌+◌, ◌-◌, ◌^◌, ◌≤◌, ◌<◌, ◌≡◌, refl, sym, ap, ◌∙◌, arith, ◌⊎◌, inl, inr, u32,
}
use siamese.Prelude.{List, [], ◌∷◌, ◌++◌, Bool, true, false, leb, ◌==◌, if_cases, Option-cases}
use mathlib.Core.Path.{subst}
use siamese.Prelude.Memory.{Memory}
use siamese.Allocator.System.{Block, System, Calloc, remove_block}
use siamese.Allocator.System.Blocks.{IsApart, IsInside, IsFresh, IsInside-IsApart, IsInside-part}
use siamese.Buffer.{
  GrowingAlignedDataBuffer, State, copied, cleared, move_to, resize, with_memory, append,
  grow_zero_padded,
}

-- n bytes of the memory, from an address on.
abbrev pub bytes_at : Memory → ℕ → ℕ → List ℕ
bytes_at m p zero = []
bytes_at m p (suc n) = m p ∷ bytes_at m (suc p) n

abbrev pub zeros : ℕ → List ℕ
zeros zero = []
zeros (suc n) = 0 ∷ zeros n

abbrev pub contents : State → List ℕ
contents s = bytes_at (s.system).memory s.buffer.data_ptr s.buffer.size

pub bytes_at-same :
    (m k : Memory) (p q n : ℕ)
    → ((i : ℕ) → i < n → m (p + i) ≡ k (q + i))
    → bytes_at m p n ≡ bytes_at k q n
bytes_at-same m k p q zero same = refl
bytes_at-same m k p q (suc n) same =
    let first : m p ≡ k q =
      ap m (let e : p ≡ p + 0 = omega arith in e)
      ∙ same 0 (omega arith)
      ∙ ap k (let e : q + 0 ≡ q = omega arith in e) in
    let rest : (i : ℕ) → i < n → m (suc p + i) ≡ k (suc q + i) = λ i h.
      ap m (let e : suc p + i ≡ p + suc i = omega arith in e)
      ∙ same (suc i) (omega arith)
      ∙ ap k (let e : q + suc i ≡ suc q + i = omega arith in e) in
    ap (λ (x : ℕ). x ∷ bytes_at m (suc p) n) first
    ∙ ap (λ (xs : List ℕ). k q ∷ xs) (bytes_at-same m k (suc p) (suc q) n rest)

pub bytes_at-append :
    (m : Memory) (p a b : ℕ) → bytes_at m p (a + b) ≡ bytes_at m p a ++ bytes_at m (p + a) b
bytes_at-append m p zero b =
    ap (bytes_at m p) (let e : 0 + b ≡ b = omega arith in e)
    ∙ ap (λ (x : ℕ). bytes_at m x b) (let e : p ≡ p + 0 = omega arith in e)
bytes_at-append m p (suc a) b =
    ap (bytes_at m p) (let e : suc a + b ≡ suc (a + b) = omega arith in e)
    ∙ ap (λ (xs : List ℕ). m p ∷ xs) (bytes_at-append m (suc p) a b)
    ∙ ap (λ (x : ℕ). m p ∷ (bytes_at m (suc p) a ++ bytes_at m x b))
        (let e : suc p + a ≡ p + suc a = omega arith in e)

pub bytes_at-zeros : (p n : ℕ) → bytes_at (λ j. 0) p n ≡ zeros n
bytes_at-zeros p zero = refl
bytes_at-zeros p (suc n) = ap (λ (xs : List ℕ). 0 ∷ xs) (bytes_at-zeros (suc p) n)

-- The bytes in use lie in a block, and the buffer's numbers are 32 bits wide.
pub record IsBuffer (s : State) : Type 0 where
  pub bounded : s.buffer.size ≤ s.buffer.capacity
  pub wide : s.buffer.capacity < 2 ^ 32
  pub none_held : s.buffer.capacity ≡ 0 → s.buffer.data_ptr ≡ 0
  pub held :
      1 ≤ s.buffer.capacity
      → (1 ≤ s.buffer.data_ptr) × IsInside s.buffer.data_ptr s.buffer.capacity (s.system).blocks

-- n bytes at v meet nothing of the buffer's room.
abbrev pub IsOutside : ℕ → ℕ → State → Type 0
IsOutside v n s = (v + n ≤ s.buffer.data_ptr) ⊎ (s.buffer.data_ptr + s.buffer.capacity ≤ v)

-- The outcome of Resize: nothing has changed, or the buffer has the size asked for, the bytes that
-- both sizes have in common, and room apart from what else lies in the blocks.
record IsMoved (s t : State) (bytes : ℕ) : Type 0 where
  valid : IsBuffer t
  sized : t.buffer.size ≡ bytes
  kept :
      (i : ℕ)
      → i < s.buffer.size
      → i < bytes
      → (t.system).memory (t.buffer.data_ptr + i) ≡ (s.system).memory (s.buffer.data_ptr + i)
  others : (j : ℕ) → IsInside j 1 (s.system).blocks → (t.system).memory j ≡ (s.system).memory j
  unmet : (v n : ℕ) → IsInside v n (s.system).blocks → IsOutside v n s → IsOutside v n t

abbrev IsResized : State → ℕ → Bool × State → Type 0
IsResized s bytes (ok, t) = ((ok ≡ false) × (t ≡ s)) ⊎ ((ok ≡ true) × IsMoved s t bytes)

module _ (s : State) (valid : IsBuffer s) (bytes : ℕ) (small : bytes < 2 ^ 32) where
  in_place :
      bytes ≤ s.buffer.capacity
      → IsMoved s (record s { buffer = record (s.buffer) { size = bytes } }) bytes
  in_place h = record {
    valid = record {
      bounded = h;
      wide = valid.wide;
      none_held = valid.none_held;
      held = valid.held;
    };
    sized = refl;
    kept = λ i h k. refl;
    others = λ j i. refl;
    unmet = λ v n i apart. apart;
  }

  module _ (new_data : ℕ) (grows : s.buffer.capacity < bytes) (positive : 1 ≤ new_data)
      (apart : IsApart new_data bytes (s.system).blocks) where
    abbrev grown : System
    grown = record (s.system) {
      blocks = record { address = new_data; size = bytes } ∷ (s.system).blocks;
    }

    abbrev held_block : Block
    held_block = record { address = new_data; size = bytes }

    abbrev new_buffer : GrowingAlignedDataBuffer
    new_buffer = record { data_ptr = new_data; size = bytes; capacity = bytes }

    new-IsBuffer :
        (m : Memory) (rest : List Block)
        → IsBuffer (record {
          system = record { memory = m; blocks = held_block ∷ rest };
          buffer = new_buffer;
        })
    new-IsBuffer m rest = record {
      bounded = omega arith;
      wide = small;
      none_held = λ z. absurd (omega arith);
      held = λ h. (positive, inl (omega arith, omega arith));
    }

    unmet_new :
        (v n : ℕ) → IsInside v n (s.system).blocks → (v + n ≤ new_data) ⊎ (new_data + bytes ≤ v)
    unmet_new v n i = IsInside-IsApart v n new_data bytes (s.system).blocks i apart

    abbrev copy : Memory
    copy = copied (s.system).memory new_data s.buffer.data_ptr s.buffer.size

    -- The copy writes to the new block alone.
    copy_others : (j : ℕ) → IsInside j 1 (s.system).blocks → copy j ≡ (s.system).memory j
    copy_others j i = elim (unmet_new j 1 i) [
      | inl h ↦ ground arith
      | inr h ↦ ground (arith, valid.bounded)
    ]

    copy_kept :
        (i : ℕ)
        → i < s.buffer.size
        → copy (new_data + i) ≡ (s.system).memory (s.buffer.data_ptr + i)
    copy_kept i h = ground (
      arith,
      ap (s.system).memory (
          let e : s.buffer.data_ptr + (new_data + i - new_data) ≡ s.buffer.data_ptr + i =
            omega arith in
          e),
    )

    moved : IsMoved s (move_to new_data bytes grown s.buffer) bytes
    unfolding move_to remove_block
    moved =
        let P = λ (y : System). IsMoved s (record { system = y; buffer = new_buffer }) bytes in
        if_cases P (s.buffer.data_ptr == 0)
          (λ t. record {
            valid = new-IsBuffer (s.system).memory (s.system).blocks;
            sized = refl;
            kept = λ i h k. absurd (ground (arith, valid.held, valid.bounded));
            others = λ j i. refl;
            unmet = λ v n i a. unmet_new v n i;
          })
          (λ t.
            let some_held : 1 ≤ s.buffer.capacity = ground (arith, valid.none_held) in
            let (some_data, inside) = valid.held some_held in
            let other : (new_data == s.buffer.data_ptr) ≡ false =
              elim (unmet_new s.buffer.data_ptr s.buffer.capacity inside) [
                | inl l ↦ ground arith
                | inr l ↦ ground arith
              ] in
            if_cases (λ (bs : List Block). P (record { memory = copy; blocks = bs }))
              (new_data == s.buffer.data_ptr) (λ u. absurd (ground arith))
              (λ u. record {
                valid = new-IsBuffer copy (remove_block (s.system).blocks s.buffer.data_ptr);
                sized = refl;
                kept = λ i h k. copy_kept i h;
                others = copy_others;
                unmet = λ v n i a. unmet_new v n i;
              }))

resize-IsResized :
    (aligned_alloc : Calloc)
    → IsFresh aligned_alloc
    → (bytes : ℕ) (s : State) → IsBuffer s
    → bytes < 2 ^ 32
    → IsResized s bytes (resize aligned_alloc bytes s)
unfolding resize
resize-IsResized aligned_alloc fresh bytes s valid small =
    if_cases (IsResized s bytes) (leb bytes s.buffer.capacity)
      (λ t. inr (refl, in_place s valid bytes small (ground arith)))
      (λ t. elim (Option-cases (aligned_alloc (s.system).blocks bytes)) [
        | inl e ↦ rw (e) (inl (refl, refl))
        | inr (new_data, e) ↦
            let (positive, apart) = fresh (s.system).blocks bytes new_data e in
            rw (e) (inr (refl, moved s valid bytes small new_data (ground arith) positive apart))
      ])

-- The outcome of an extension: nothing has changed, or the buffer holds what it held and then the
-- bytes added.
abbrev pub IsExtended : State → List ℕ → Bool × State → Type 0
IsExtended s added (ok, t) =
    ((ok ≡ false) × (t ≡ s)) ⊎ ((ok ≡ true) × IsBuffer t × (contents t ≡ contents s ++ added))

with_memory-IsBuffer : (m : Memory) (t : State) → IsBuffer t → IsBuffer (with_memory m t)
with_memory-IsBuffer m t ok = record {
  bounded = ok.bounded;
  wide = ok.wide;
  none_held = ok.none_held;
  held = ok.held;
}

-- What a moved buffer holds once the bytes behind those that it kept are written.
extended_contents :
    (s t : State) (more : ℕ) (m k : Memory) (q : ℕ)
    → IsMoved s t (s.buffer.size + more)
    → ((i : ℕ)
        → i < s.buffer.size
        → m (t.buffer.data_ptr + i) ≡ (t.system).memory (t.buffer.data_ptr + i))
    → ((i : ℕ) → i < more → m (t.buffer.data_ptr + s.buffer.size + i) ≡ k (q + i))
    → contents (with_memory m t) ≡ contents s ++ bytes_at k q more
extended_contents s t more m k q moved front back =
    let d = t.buffer.data_ptr in
    ap (bytes_at m d) moved.sized
    ∙ bytes_at-append m d s.buffer.size more
    ∙ ap (λ (xs : List ℕ). xs ++ bytes_at m (d + s.buffer.size) more)
        (bytes_at-same m (s.system).memory d s.buffer.data_ptr s.buffer.size
          (λ i h. front i h ∙ moved.kept i h (omega arith)))
    ∙ ap (λ (xs : List ℕ). contents s ++ xs) (bytes_at-same m k (d + s.buffer.size) q more back)

module _ (aligned_alloc : Calloc) (fresh : IsFresh aligned_alloc) (s : State)
    (valid : IsBuffer s) where
  -- If aligned_alloc returns fresh blocks, Append to a valid buffer, where the sum of both sizes is
  -- below 2 ^ 32, of bytes that lie in a block in use and outside the buffer's room, either fails
  -- and changes nothing, or leaves a valid buffer that holds the bytes that it held and then the new
  -- ones, with these still outside its room.
  pub append-IsExtended :
      (source bytes : ℕ)
      → s.buffer.size + bytes < 2 ^ 32
      → IsInside source bytes (s.system).blocks
      → IsOutside source bytes s
      → IsExtended s (bytes_at (s.system).memory source bytes) (append aligned_alloc source bytes s)
        × IsOutside source bytes (append aligned_alloc source bytes s).1
  unfolding append
  append-IsExtended source bytes small inside outside =
      let total = u32 (s.buffer.size + bytes) in
      let sum : total ≡ s.buffer.size + bytes = omega arith in
      let r = resize aligned_alloc total s in
      let P = λ (x : Bool × State).
        IsExtended s (bytes_at (s.system).memory source bytes) x × IsOutside source bytes x.1 in
      elim (resize-IsResized aligned_alloc fresh total s valid (omega arith)) [
        | inl (refused, same) ↦
            if_cases P r.0 (λ t. absurd cc)
              (λ t. (inl (refl, same), subst (IsOutside source bytes) (sym same) outside))
        | inr (done, was_moved) ↦
            let t = r.1 in
            let target = t.buffer.data_ptr + u32 (t.buffer.size + 2 ^ 32 - bytes) in
            let place : target ≡ t.buffer.data_ptr + s.buffer.size =
              omega (arith, was_moved.sized) in
            let m = copied (t.system).memory target source bytes in
            let summed : IsMoved s t (s.buffer.size + bytes) = subst (IsMoved s t) sum was_moved in
            if_cases P r.0
              (λ c. (
                inr (
                  refl,
                  with_memory-IsBuffer m t was_moved.valid,
                  extended_contents s t bytes m (s.system).memory source summed
                      (λ i h. ground arith)
                      (λ i h.
                        let at : source + (t.buffer.data_ptr + s.buffer.size + i - target)
                            ≡ source + i =
                          omega arith in
                        ground (
                          arith,
                          ap (t.system).memory at,
                          was_moved.others (source + i) (
                              IsInside-part source bytes (source + i) 1 (s.system).blocks inside
                                (omega arith) (omega arith)),
                        )),
                ),
                was_moved.unmet source bytes inside outside,
              ))
              (λ c. absurd cc)
      ]

  -- If aligned_alloc returns fresh blocks, GrowZeroPadded of a valid buffer to a size below 2 ^ 32
  -- either fails and changes nothing, or leaves a valid buffer that holds the bytes that it held and
  -- then zeros up to that size, none if it was as large already.
  pub grow_zero_padded-IsExtended :
      (bytes : ℕ)
      → bytes < 2 ^ 32
      → IsExtended s (zeros (bytes - s.buffer.size)) (grow_zero_padded aligned_alloc bytes s)
  unfolding grow_zero_padded
  grow_zero_padded-IsExtended bytes small =
      let r = resize aligned_alloc bytes s in
      let more = bytes - s.buffer.size in
      let P = IsExtended s (zeros more) in
      if_cases P (leb bytes s.buffer.size)
        (λ t.
          let nothing : more ≡ 0 = ground arith in
          inr (
            refl,
            valid,
            ap (bytes_at (s.system).memory s.buffer.data_ptr)
                  (let e : s.buffer.size ≡ s.buffer.size + 0 = omega arith in e)
                ∙ bytes_at-append (s.system).memory s.buffer.data_ptr s.buffer.size 0
                ∙ ap (λ (n : ℕ). contents s ++ zeros n) (sym nothing),
          ))
        (λ t. elim (resize-IsResized aligned_alloc fresh bytes s valid small) [
          | inl (refused, same) ↦ if_cases P r.0 (λ c. absurd cc) (λ c. inl (refl, same))
          | inr (done, was_moved) ↦
              let u = r.1 in
              let m = cleared (u.system).memory (u.buffer.data_ptr + s.buffer.size) more in
              let sum : bytes ≡ s.buffer.size + more = ground arith in
              if_cases P r.0
                (λ c. inr (
                  refl,
                  with_memory-IsBuffer m u was_moved.valid,
                  extended_contents s u more m (λ j. 0) 0 (subst (IsMoved s u) sum was_moved)
                        (λ i h. ground arith) (λ i h. ground arith)
                      ∙ ap (λ (xs : List ℕ). contents s ++ xs) (bytes_at-zeros 0 more),
                ))
                (λ c. absurd cc)
        ])
