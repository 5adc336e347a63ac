-- ===== src/Serializers/Examples.antt =====
-- Concrete fields: the tests of the formats, and the theorems at inputs that meet their conditions.
use siamese.Prelude.{ℕ, ◌+◌, ◌≡◌, ◌^◌, refl, arith, none, some, List, [], ◌∷◌, leb, if◌then◌else◌}
use siamese.Prelude.Memory.{Memory, Agree, IsBytes, store}
use siamese.Prelude.Int.{pos}
use siamese.Serializers.PacketNum
use siamese.Serializers.PacketCount
use siamese.Serializers.PacketLength
use siamese.Serializers.Metadata
use siamese.Serializers.Metadata.{RecoveryMetadata}
use siamese.Serializers.Metadata.Laws.{IsEncodable}
use siamese.Serializers.Metadata.Bounds.{Accepted}
use siamese.Serializers.NackRange
use siamese.Serializers.NackRange.Laws.{Bounded}
use siamese.Serializers.Stream.Write
use siamese.Serializers.Stream.Read
use siamese.Serializers.Stream.Laws.{Width, w8, w24, w64}
use siamese.Serializers.Stream.Sequence.{write_all, read_all, widths, values, fields_round_trip}

abbrev blank : Memory
blank j = 0

-- Two bytes of a packet number that was encoded by hand, at address 100.
abbrev wire : Memory
wire = store (store blank 100 0x81) 101 0x2c

blank-IsBytes : IsBytes blank
blank-IsBytes j = omega arith

wire-IsBytes : IsBytes wire
wire-IsBytes j = ground arith

num_header_test : PacketNum.deserialize_header wire 100 (pos 2) ≡ some (2, 300)
unfolding PacketNum.deserialize_header
num_header_test = refl

num_truncated_test : PacketNum.deserialize_header wire 100 (pos 1) ≡ none
unfolding PacketNum.deserialize_header
num_truncated_test = refl

length_sizes_test :
    ((PacketLength.serialize_header 0x7f blank 9).0 ≡ 1)
    × ((PacketLength.serialize_header 0x80 blank 9).0 ≡ 2)
    × ((PacketLength.serialize_header 0x4000 blank 9).0 ≡ 3)
    × ((PacketLength.serialize_header 0x200000 blank 9).0 ≡ 4)
unfolding PacketLength.serialize_header
length_sizes_test = (refl, refl, refl, refl)

num_round_trip_example :
    (PacketNum.deserialize_header (PacketNum.serialize_header 70000 blank 100).1 100 (pos 3) ≡ (
      if leb (PacketNum.serialize_header 70000 blank 100).0 3
      then some ((PacketNum.serialize_header 70000 blank 100).0, 70000)
      else none))
    × (PacketNum.deserialize_footer (PacketNum.serialize_footer 70000 blank 100).1 100 (pos 3) ≡ (
        if leb (PacketNum.serialize_footer 70000 blank 100).0 3
        then some ((PacketNum.serialize_footer 70000 blank 100).0, 70000)
        else none))
unfolding PacketNum.serialize_footer
num_round_trip_example =
    PacketNum.Laws.num_round_trip 70000 blank 100 100 3 (omega arith) (omega arith) (omega arith)
      refl

-- A second memory that differs from `wire` just outside the two bytes.
abbrev noisy : Memory
noisy = store (store wire 99 7) 102 8

noisy-Agree : Agree wire noisy 100 (100 + 2)
noisy-Agree j lo hi = ground arith

-- The longest metadata: three columns bytes, and both counts in two bytes.
abbrev wide : RecoveryMetadata
wide = record { row = 9; column_start = 100000; sum_count = 300; ldpc_count = 200 }

abbrev unset : RecoveryMetadata
unset = record { row = 0; column_start = 0; sum_count = 0; ldpc_count = 0 }

wide-IsEncodable : IsEncodable wide
wide-IsEncodable = omega arith

metadata_round_trip_example :
    Metadata.deserialize_footer (Metadata.serialize_footer wide blank 100).1 90 18 unset
    ≡ (some (Metadata.serialize_footer wide blank 100).0, wide)
unfolding Metadata.serialize_footer Metadata.serialize_lead PacketNum.serialize_footer
    PacketCount.serialize_footer
metadata_round_trip_example =
    Metadata.Laws.metadata_round_trip wide unset blank 100 90 18 wide-IsEncodable (omega arith)
      (omega arith) (omega arith) refl

-- Four bytes that the reader accepts as a sum of two packets.
abbrev sent : Memory
sent = store (store (store (store blank 100 9) 101 2) 102 5) 103 1

sent-IsBytes : IsBytes sent
sent-IsBytes j = ground arith

metadata-Accepted_example : Accepted 4 (Metadata.deserialize_footer sent 100 4 unset)
metadata-Accepted_example = Metadata.Bounds.metadata-Accepted sent 100 4 unset sent-IsBytes

sent_test :
    Metadata.deserialize_footer sent 100 4 unset
    ≡ (some 4, record { row = 9; column_start = 5; sum_count = 2; ldpc_count = 2 })
unfolding Metadata.deserialize_footer Metadata.deserialize_column Metadata.deserialize_lead
    Metadata.deserialize_row PacketCount.deserialize_footer PacketNum.deserialize_footer
sent_test = refl

range_round_trip_example :
    NackRange.deserialize_header (NackRange.serialize_header 4194303 1000 blank 100).1 100 7
    ≡ some ((NackRange.serialize_header 4194303 1000 blank 100).0, 4194303, 1000)
range_round_trip_example =
    NackRange.Laws.range_round_trip 4194303 1000 blank 100 7 (omega arith) (omega arith)
      (omega arith) (omega arith)

abbrev far_noise : Memory
far_noise = store wire 107 8

far_noise-Agree : Agree wire far_noise 100 (100 + 7)
far_noise-Agree j lo hi = ground arith

abbrev three_fields : List (Width × ℕ)
three_fields = (w8, 7) ∷ (w24, 70000) ∷ (w64, 2 ^ 40) ∷ []

fields_round_trip_example :
    read_all
      (widths three_fields)
      (Read.open_at 100 12)
      (write_all three_fields (Write.open_at 100 12) blank).1
    ≡ (values three_fields, record { address = 100; buffer_bytes = 12; bytes_read = 12 })
unfolding Read.open_at Write.open_at
fields_round_trip_example =
    fields_round_trip three_fields (Write.open_at 100 12) blank (Read.open_at 100 12) (omega arith)
      blank-IsBytes refl (omega arith) (omega arith)
