-- ===== src/Serializers/Metadata/Laws.antt =====
-- Recovery metadata written behind a packet's data and read back from the end of the buffer.
use siamese.Prelude.{ℕ, ◌+◌, ◌-◌, ◌^◌, ◌≤◌, ◌<◌, ◌≡◌, ◌∙◌, refl, arith, ◌⊎◌, inl}
use siamese.Prelude.{some, leb, if◌then◌else◌, u32, u8}
use siamese.Prelude.Memory.{Memory, store, Agree}
use siamese.Prelude.Int.{pos}
use siamese.Serializers.PacketNum
use siamese.Serializers.PacketCount
use siamese.Serializers.Metadata.{
  RecoveryMetadata, serialize_lead, serialize_footer, deserialize_row, deserialize_lead,
  deserialize_column, deserialize_footer,
}

-- What the format can carry.
pub record IsEncodable (d : RecoveryMetadata) : Type 0 where
  pub row_fits : d.row < 2 ^ 8
  pub column_fits : d.column_start < 2 ^ 22
  pub some_packets : 1 ≤ d.sum_count
  pub sum_fits : d.sum_count ≤ 2 ^ 15
  pub ldpc_fits : d.ldpc_count < 2 ^ 15
  pub ldpc_within : d.ldpc_count ≤ d.sum_count

-- A field that was written below `end` reads back from a memory that agrees with the written one.
count_kept :
    (n : ℕ) (m m' : Memory) (p buffer space : ℕ)
    → n < 2 ^ 15
    → buffer + space ≡ p + (PacketCount.serialize_footer n m p).0
    → buffer ≤ p
    → Agree m' (PacketCount.serialize_footer n m p).1 buffer (buffer + space)
    → PacketCount.deserialize_footer m' buffer space
      ≡ some ((PacketCount.serialize_footer n m p).0, n)
count_kept n m m' p buffer space h e below same =
    (PacketCount.Laws.count_local m' (PacketCount.serialize_footer n m p).1 buffer space same).1
    ∙ ground (arith, PacketCount.Laws.count_footer_reads_back n m p buffer space)

num_kept :
    (n : ℕ) (m m' : Memory) (p buffer space : ℕ)
    → n < 2 ^ 22
    → 0 < buffer
    → buffer + space ≡ p + (PacketNum.serialize_footer n m p).0
    → buffer ≤ p
    → Agree m' (PacketNum.serialize_footer n m p).1 buffer (buffer + space)
    → PacketNum.deserialize_footer m' buffer (pos space)
      ≡ some ((PacketNum.serialize_footer n m p).0, n)
num_kept n m m' p buffer space h hb e below same =
    (PacketNum.Laws.num_local m' (PacketNum.serialize_footer n m p).1 buffer (pos space) same).1
    ∙ ground (arith, PacketNum.Laws.num_footer_reads_back n m p buffer space)

-- The metadata that comes back: of one packet the row and the LDPC count are not sent.
abbrev pub received : RecoveryMetadata → RecoveryMetadata
received d = if leb d.sum_count 1 then record d { ldpc_count = 1; row = 0 } else d

lead_reads_back :
    (d : RecoveryMetadata) (m m' : Memory) (p buffer original space : ℕ) (out : RecoveryMetadata)
    → IsEncodable d
    → buffer ≤ p
    → buffer + space ≡ p + (serialize_lead d m p).0
    → Agree m' (serialize_lead d m p).1 buffer (buffer + space)
    → out.sum_count ≡ d.sum_count
    → out.column_start ≡ d.column_start
    → space ≤ original
    → deserialize_lead m' buffer original space out
      ≡ (some (original - space + (serialize_lead d m p).0), received d)
unfolding serialize_lead deserialize_lead deserialize_row
lead_reads_back d m m' p buffer original space out v below e same s c fits = ground (
  arith,
  count_kept d.ldpc_count (store m p (u8 d.row)) m' (p + 1) buffer space,
  same p,
  PacketCount.Laws.count_footer_frame d.ldpc_count (store m p (u8 d.row)) (p + 1) p,
  PacketCount.Laws.count_footer_size d.ldpc_count (store m p (u8 d.row)) (p + 1),
)

serialize_lead_size : (d : RecoveryMetadata) (m : Memory) (p : ℕ) → (serialize_lead d m p).0 ≤ 3
unfolding serialize_lead
serialize_lead_size d m p =
    ground (arith, PacketCount.Laws.count_footer_size d.ldpc_count (store m p (u8 d.row)) (p + 1))

module _ (d out : RecoveryMetadata) (m : Memory) (p buffer : ℕ) (v : IsEncodable d)
    (valid : 0 < buffer) (below : buffer ≤ p) where
  abbrev lead : ℕ × Memory
  lead = serialize_lead d m p

  abbrev num : ℕ × Memory
  num = PacketNum.serialize_footer d.column_start lead.1 (p + lead.0)

  column_reads_back :
      (m' : Memory) (original space : ℕ)
      → buffer + space ≡ p + (lead.0 + num.0)
      → Agree m' num.1 buffer (buffer + space)
      → out.sum_count ≡ d.sum_count
      → space ≤ original
      → space < 2 ^ 31
      → deserialize_column m' buffer original space out
        ≡ (some (original - space + (lead.0 + num.0)), received d)
  unfolding deserialize_column
  column_reads_back m' original space e same s fits small =
      let size = PacketNum.Laws.num_footer_size d.column_start lead.1 (p + lead.0) in
      let kept =
        num_kept d.column_start lead.1 m' (p + lead.0) buffer space v.column_fits valid
          (omega arith) (omega arith) same in
      let same_lead : Agree m' lead.1 buffer (buffer + (space - num.0)) = λ j lo hi.
        same j lo (omega arith)
        ∙ PacketNum.Laws.num_footer_frame d.column_start lead.1 (p + lead.0) j
            (inl (omega arith)) in
      ground (
        arith,
        kept,
        lead_reads_back d m m' p buffer original (space - num.0)
            (record out { column_start = d.column_start }) v below (omega arith) same_lead s refl
            (omega arith),
      )

-- Metadata that fits its fields reads back from the end of any buffer that ends where the written
-- bytes end, holds them and is shorter than 2 ^ 31, with the bytes written as the bytes read and
-- whatever the output held before. Of a sum of one packet the row comes back as 0 and the LDPC count
-- as 1.
pub metadata_round_trip :
    (d out : RecoveryMetadata) (m : Memory) (p buffer space : ℕ)
    → IsEncodable d
    → 0 < buffer
    → buffer ≤ p
    → space < 2 ^ 31
    → buffer + space ≡ p + (serialize_footer d m p).0
    → deserialize_footer (serialize_footer d m p).1 buffer space out
      ≡ (some (serialize_footer d m p).0, received d)
unfolding serialize_footer deserialize_footer
metadata_round_trip d out m p buffer space v valid below small e =
    let first = lead d out m p buffer v valid below in
    let second = num d out m p buffer v valid below in
    let sum : ℕ = u32 (d.sum_count + 2 ^ 32 - 1) in
    let last = PacketCount.serialize_footer sum second.1 (p + (first.0 + second.0)) in
    let size = PacketCount.Laws.count_footer_size sum second.1 (p + (first.0 + second.0)) in
    let kept =
      count_kept sum second.1 last.1 (p + (first.0 + second.0)) buffer space (omega arith)
        (omega arith) (omega arith) (λ j lo hi. refl) in
    let same_num : Agree last.1 second.1 buffer (buffer + (space - last.0)) = λ j lo hi.
      PacketCount.Laws.count_footer_frame sum second.1 (p + (first.0 + second.0)) j
        (inl (omega arith)) in
    ground (
      arith,
      kept,
      column_reads_back d (record out { sum_count = d.sum_count }) m p buffer v valid below last.1
          space (space - last.0) (omega arith) same_num refl (omega arith) (omega arith),
    )

serialize_lead_frame :
    (d : RecoveryMetadata) (m : Memory) (p j : ℕ)
    → (j < p) ⊎ (p + (serialize_lead d m p).0 ≤ j)
    → (serialize_lead d m p).1 j ≡ m j
unfolding serialize_lead
serialize_lead_frame d m p j h = ground (
  arith,
  PacketCount.Laws.count_footer_frame d.ldpc_count (store m p (u8 d.row)) (p + 1) j,
  PacketCount.Laws.count_footer_size d.ldpc_count (store m p (u8 d.row)) (p + 1),
)

-- The metadata takes 2 to 8 bytes, and every byte outside them is kept.
pub metadata_frame :
    (d : RecoveryMetadata) (m : Memory) (p j : ℕ)
    → (j < p) ⊎ (p + (serialize_footer d m p).0 ≤ j)
    → (2 ≤ (serialize_footer d m p).0)
      × ((serialize_footer d m p).0 ≤ 8)
      × ((serialize_footer d m p).1 j ≡ m j)
unfolding serialize_footer
metadata_frame d m p j h =
    let first = serialize_lead d m p in
    let second = PacketNum.serialize_footer d.column_start first.1 (p + first.0) in
    let sum : ℕ = u32 (d.sum_count + 2 ^ 32 - 1) in
    ground (
      arith,
      serialize_lead_size d m p,
      serialize_lead_frame d m p j,
      PacketNum.Laws.num_footer_size d.column_start first.1 (p + first.0),
      PacketNum.Laws.num_footer_frame d.column_start first.1 (p + first.0) j,
      PacketCount.Laws.count_footer_size sum second.1 (p + (first.0 + second.0)),
      PacketCount.Laws.count_footer_frame sum second.1 (p + (first.0 + second.0)) j,
    )

-- Metadata that fits its fields, with an LDPC count of at least 2 ^ 7, a sum above 2 ^ 7 and a
-- column of 2 ^ 14 or more, takes 8 bytes.
pub metadata_eight_bytes :
    (d : RecoveryMetadata) (m : Memory) (p : ℕ)
    → IsEncodable d
    → 2 ^ 7 ≤ d.ldpc_count
    → 2 ^ 7 < d.sum_count
    → 2 ^ 14 ≤ d.column_start
    → (serialize_footer d m p).0 ≡ 8
unfolding serialize_footer serialize_lead PacketNum.serialize_footer PacketCount.serialize_footer
metadata_eight_bytes d m p v ldpc sum column = ground arith
