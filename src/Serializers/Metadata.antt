-- ===== src/Serializers/Metadata.antt =====
-- The recovery metadata at the back of a recovery packet: RecoveryMetadata of SiameseCommon.h, and
-- its two functions of SiameseSerializers.h. The deserializer also returns the metadata as it leaves
-- it, which on an error is partly overwritten; `none` is its -1.
pub mod Laws
pub mod Bounds
use siamese.Prelude.{ℕ, ◌+◌, ◌-◌, ◌^◌, ◌%◌, Option, none, some, u8, u32, ltb, leb, if◌then◌else◌}
use siamese.Prelude.Memory.{Memory, store}
use siamese.Prelude.Int.{int_of_u32}
use siamese.Serializers.PacketNum
use siamese.Serializers.PacketCount

pub record RecoveryMetadata : Type 0 where
  pub row : ℕ
  pub column_start : ℕ
  pub sum_count : ℕ
  pub ldpc_count : ℕ

-- The row and the LDPC count stand in front, and only where the sum has more than one packet.
unfoldable pub serialize_lead : RecoveryMetadata → Memory → ℕ → ℕ × Memory
serialize_lead metadata m buffer =
    if ltb 1 metadata.sum_count
    then (let (k, m') =
          PacketCount.serialize_footer metadata.ldpc_count (store m buffer (u8 metadata.row))
            (buffer + 1) in
        (1 + k, m'))
    else (0, m)

unfoldable pub serialize_footer : RecoveryMetadata → Memory → ℕ → ℕ × Memory
serialize_footer metadata m buffer =
    let (lead, m₁) = serialize_lead metadata m buffer in
    let (num, m₂) = PacketNum.serialize_footer metadata.column_start m₁ (buffer + lead) in
    let (count, m₃) =
      PacketCount.serialize_footer (u32 (metadata.sum_count + 2 ^ 32 - 1)) m₂
        (buffer + (lead + num)) in
    (lead + num + count, m₃)

-- The byte of the row, the last of the space that is left.
unfoldable pub deserialize_row : Memory → ℕ → ℕ → ℕ → RecoveryMetadata → Option ℕ × RecoveryMetadata
deserialize_row m buffer original space out =
    if leb 1 space
    then (some (original - (space - 1)), record out { row = m (buffer + (space - 1)) })
    else (none, out)

unfoldable pub deserialize_lead :
    Memory → ℕ → ℕ → ℕ → RecoveryMetadata → Option ℕ × RecoveryMetadata
deserialize_lead m buffer original space out =
    if leb out.sum_count 1
    then (some (original - space), record out { ldpc_count = 1; row = 0 })
    else elim (PacketCount.deserialize_footer m buffer space) [
      | none ↦ (none, out)
      | some (k, ldpc) ↦
          let out' = record out { ldpc_count = ldpc } in
          if ltb out.sum_count ldpc
          then (none, out')
          else deserialize_row m buffer original (space - k) out'
    ]

unfoldable pub deserialize_column :
    Memory → ℕ → ℕ → ℕ → RecoveryMetadata → Option ℕ × RecoveryMetadata
deserialize_column m buffer original space out =
    elim (PacketNum.deserialize_footer m buffer (int_of_u32 space)) [
      | none ↦ (none, out)
      | some (k, column) ↦
          deserialize_lead m buffer original (space - k) (record out { column_start = column })
    ]

unfoldable pub deserialize_footer : Memory → ℕ → ℕ → RecoveryMetadata → Option ℕ × RecoveryMetadata
deserialize_footer m buffer space out = elim (PacketCount.deserialize_footer m buffer space) [
  | none ↦ (none, out)
  | some (k, count) ↦
      deserialize_column m buffer space (space - k) (record out { sum_count = u32 (count + 1) })
]
