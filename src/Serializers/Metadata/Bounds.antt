-- ===== src/Serializers/Metadata/Bounds.antt =====
-- The metadata deserializer on arbitrary bytes: what it reads and what it accepts.
use siamese.Prelude.{ℕ, ◌+◌, ◌-◌, ◌^◌, ◌≤◌, ◌<◌, ◌≡◌, arith, inl, inr}
use siamese.Prelude.{Option, none, some, Option-cases, u32}
use siamese.Prelude.Memory.{Memory, Agree, IsBytes}
use siamese.Prelude.Int.{pos_part, int_of_u32}
use siamese.Serializers.PacketNum
use siamese.Serializers.PacketCount
use siamese.Serializers.Metadata.Laws.{IsEncodable}
use siamese.Serializers.Metadata.{
  RecoveryMetadata, deserialize_row, deserialize_lead, deserialize_column, deserialize_footer,
}

module _ (m m' : Memory) (p : ℕ) where
  Agree-shorter : (s t : ℕ) → Agree m m' p (p + s) → t ≤ s → Agree m m' p (p + t)
  Agree-shorter s t same h j lo hi = same j lo (omega arith)

  row_local :
      (original space : ℕ) (out : RecoveryMetadata)
      → Agree m m' p (p + space)
      → deserialize_row m p original space out ≡ deserialize_row m' p original space out
  unfolding deserialize_row
  row_local original space out same = ground (arith, same (p + (space - 1)))

  lead_local :
      (original space : ℕ) (out : RecoveryMetadata)
      → Agree m m' p (p + space)
      → deserialize_lead m p original space out ≡ deserialize_lead m' p original space out
  unfolding deserialize_lead
  lead_local original space out same =
      let alike = (PacketCount.Laws.count_local m m' p space same).1 in
      elim (Option-cases (PacketCount.deserialize_footer m p space)) [
        | inl refused ↦ ground (arith, alike)
        | inr ((k, ldpc), read) ↦ ground (
          arith,
          alike,
          row_local original (space - k) (record out { ldpc_count = ldpc })
              (Agree-shorter space (space - k) same (omega arith)),
        )
      ]

  column_local :
      (original space : ℕ) (out : RecoveryMetadata)
      → space < 2 ^ 31
      → Agree m m' p (p + space)
      → deserialize_column m p original space out ≡ deserialize_column m' p original space out
  unfolding deserialize_column
  column_local original space out small same =
      let alike : PacketNum.deserialize_footer m p (int_of_u32 space)
          ≡ PacketNum.deserialize_footer m' p (int_of_u32 space) =
        (PacketNum.Laws.num_local m m' p (int_of_u32 space)
          (Agree-shorter space (pos_part (int_of_u32 space)) same (ground arith))).1 in
      elim (Option-cases (PacketNum.deserialize_footer m p (int_of_u32 space))) [
        | inl refused ↦ ground (arith, alike)
        | inr ((k, column), read) ↦ ground (
          arith,
          alike,
          lead_local original (space - k) (record out { column_start = column })
              (Agree-shorter space (space - k) same (omega arith)),
        )
      ]

-- From fewer than 2 ^ 31 bytes of space the deserializer looks at no byte outside that space: its
-- result and its output are the same on two memories that agree there.
pub metadata_local :
    (m m' : Memory) (p space : ℕ) (out : RecoveryMetadata)
    → space < 2 ^ 31
    → Agree m m' p (p + space)
    → deserialize_footer m p space out ≡ deserialize_footer m' p space out
unfolding deserialize_footer
metadata_local m m' p space out small same =
    let alike = (PacketCount.Laws.count_local m m' p space same).1 in
    elim (Option-cases (PacketCount.deserialize_footer m p space)) [
      | inl refused ↦ ground (arith, alike)
      | inr ((k, count), read) ↦ ground (
        arith,
        alike,
        column_local m m' p space (space - k) (record out { sum_count = u32 (count + 1) })
            (omega arith) (Agree-shorter m m' p space (space - k) same (omega arith)),
      )
    ]

-- An accepted result: at most 8 bytes of the space, and metadata that the format can carry.
abbrev pub Accepted : ℕ → Option ℕ × RecoveryMetadata → Type 0
Accepted space (none, out) = Unit {0}
Accepted space (some k, out) = (2 ≤ k) × (k ≤ 8) × (k ≤ space) × IsEncodable out

module _ (m : Memory) (p : ℕ) (bytes : IsBytes m) where
  -- The fields before the row are in, and 2 to 5 bytes, or 3 to 7 with the LDPC count, are read.
  row-Accepted :
      (original space : ℕ) (out : RecoveryMetadata)
      → space + 2 ≤ original
      → original ≤ space + 7
      → out.column_start < 2 ^ 22
      → 1 ≤ out.sum_count
      → out.sum_count ≤ 2 ^ 15
      → out.ldpc_count < 2 ^ 15
      → out.ldpc_count ≤ out.sum_count
      → Accepted original (deserialize_row m p original space out)
  unfolding deserialize_row
  row-Accepted original space out lo hi c s₁ s₂ l₁ l₂ = ground (arith, bytes (p + (space - 1)))

  lead-Accepted :
      (original space : ℕ) (out : RecoveryMetadata)
      → space + 2 ≤ original
      → original ≤ space + 5
      → out.column_start < 2 ^ 22
      → 1 ≤ out.sum_count
      → out.sum_count ≤ 2 ^ 15
      → Accepted original (deserialize_lead m p original space out)
  unfolding deserialize_lead
  lead-Accepted original space out lo hi c s₁ s₂ =
      let within = (PacketCount.Laws.count-WithinSpace m p space bytes).1 in
      elim (Option-cases (PacketCount.deserialize_footer m p space)) [
        | inl refused ↦ ground arith
        | inr ((k, ldpc), read) ↦
            ground
              (arith, within, row-Accepted original (space - k) (record out { ldpc_count = ldpc }))
      ]

  column-Accepted :
      (original space : ℕ) (out : RecoveryMetadata)
      → space + 1 ≤ original
      → original ≤ space + 2
      → 1 ≤ out.sum_count
      → out.sum_count ≤ 2 ^ 15
      → Accepted original (deserialize_column m p original space out)
  unfolding deserialize_column
  column-Accepted original space out lo hi s₁ s₂ =
      let within = (PacketNum.Laws.num-WithinSpace m p (int_of_u32 space) bytes).1 in
      elim (Option-cases (PacketNum.deserialize_footer m p (int_of_u32 space))) [
        | inl refused ↦ ground (arith, refused)
        | inr ((k, column), read) ↦ ground (
          arith,
          within,
          lead-Accepted original (space - k) (record out { column_start = column }),
        )
      ]

-- Whatever bytes it is given, the deserializer refuses, or it reads 2 to 8 of them and no more than
-- the space, and the metadata is such that the serializer can write it.
pub metadata-Accepted :
    (m : Memory) (p space : ℕ) (out : RecoveryMetadata)
    → IsBytes m
    → Accepted space (deserialize_footer m p space out)
unfolding deserialize_footer
metadata-Accepted m p space out bytes =
    let within = (PacketCount.Laws.count-WithinSpace m p space bytes).1 in
    elim (Option-cases (PacketCount.deserialize_footer m p space)) [
      | inl refused ↦ ground (arith, refused)
      | inr ((k, count), read) ↦ ground (
        arith,
        within,
        column-Accepted m p bytes space (space - k) (record out { sum_count = u32 (count + 1) }),
      )
    ]
