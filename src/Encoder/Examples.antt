-- ===== src/Encoder/Examples.antt =====
-- An encoder with packets of two bytes, over the field of two elements per bit, where a product is
-- that of the factor's lowest bit: tests, and the theorems at inputs that meet their conditions.
use siamese.Prelude.{
  List, ℕ, ◌+◌, ◌*◌, ◌%◌, ◌≡◌, refl, arith, bit_xor, [], ◌∷◌, ◌++◌, some, none, true, false,
}
use siamese.Prelude.Lists.{length, get_or, drop}
use siamese.Buffer.Contents.{bytes_at, zeros}
use siamese.Encoder.Loss.{blank, lost_packet_remains}
use siamese.Encoder.{
  Gf256, OriginalPacket, Encoder, new_encoder, add, retransmit, read_bytes, muladd_originals,
  get_recovery_packet, acknowledge,
}
use siamese.Encoder.Recovery.{IsMulAdd, combination, get_recovery_packet-combination}

abbrev product : ℕ → ℕ → ℕ
product y x = y % 2 * x

abbrev field : Gf256
field = record {
  gf256_exp = λ n. n % 2;
  gf256_muladd_mem =
      λ z y x. bytes_at (λ j. bit_xor (get_or z j 0) (product y (get_or x j 0))) 0 (length z);
}

field-IsMulAdd : IsMulAdd field product
field-IsMulAdd y z x h = refl

abbrev first_packet : OriginalPacket
first_packet = record { packet_data = 3 ∷ 5 ∷ []; data_bytes = 2; packet_num = 0 }

abbrev second_packet : OriginalPacket
second_packet = record { packet_data = 6 ∷ 6 ∷ []; data_bytes = 2; packet_num = 1 }

abbrev short_packet : OriginalPacket
short_packet = record { packet_data = 9 ∷ []; data_bytes = 1; packet_num = 2 }

-- What the memory holds from 3 on: 3 5, then 6 6.
abbrev memory : ℕ → ℕ
memory j = get_or (0 ∷ 0 ∷ 0 ∷ 3 ∷ 5 ∷ 6 ∷ 6 ∷ []) j 0

abbrev two_packets : Encoder
two_packets = record { originals = first_packet ∷ second_packet ∷ []; packet_count = 2 }

add_test :
    (retransmit memory
      (record { data_ptr = 5; data_bytes = 2; packet_num = 1 })
      (add memory (record { data_ptr = 3; data_bytes = 2; packet_num = 0 }) new_encoder).1).1
    ≡ two_packets
unfolding add retransmit new_encoder
add_test = refl

refused_test :
    (add memory (record { data_ptr = 0; data_bytes = 2; packet_num = 0 }) two_packets).0 ≡ false
unfolding add
refused_test = refl

acknowledge_test : acknowledge [] two_packets ≡ (true, 2)
unfolding acknowledge
acknowledge_test = refl

recovery_test :
    get_recovery_packet field 0 (1 ∷ 1 ∷ 1 ∷ []) 0 two_packets ≡ some (true, 6 ∷ 6 ∷ 1 ∷ [], 2)
unfolding get_recovery_packet muladd_originals read_bytes
recovery_test = refl

get_recovery_packet-combination_example :
    get_recovery_packet field 0 (1 ∷ 1 ∷ 1 ∷ []) 0 two_packets
    ≡ some (
      true,
      bytes_at (λ j. combination field product 0 (first_packet ∷ second_packet ∷ []) j 0) 0 2
          ++ drop 2 (1 ∷ 1 ∷ 1 ∷ []),
      2,
    )
get_recovery_packet-combination_example =
    get_recovery_packet-combination field 0 (1 ∷ 1 ∷ 1 ∷ []) 0 two_packets first_packet
      (second_packet ∷ []) refl (omega arith) (omega arith) product field-IsMulAdd
      (omega arith, (omega arith, tt))

abbrev with_short : Encoder
with_short = record { originals = first_packet ∷ short_packet ∷ []; packet_count = 2 }

-- The second original has one byte, and two are read.
overread_test : get_recovery_packet field 0 (1 ∷ 1 ∷ 1 ∷ []) 0 with_short ≡ none
unfolding get_recovery_packet muladd_originals read_bytes
overread_test = refl

lost_packet_remains_example :
    (sum known : List ℕ) × (muladd_originals field 0 2 (first_packet ∷ second_packet ∷ []) (zeros 2)
      ≡ some sum)
    × (muladd_originals field 0 2 (first_packet ∷ blank second_packet ∷ []) (zeros 2) ≡ some known)
    × (bit_xor (get_or sum 1 0) (get_or known 1 0)
        ≡ product
            (field.gf256_exp ((0 + length (first_packet ∷ [])) % 255))
            (get_or second_packet.packet_data 1 0))
lost_packet_remains_example =
    lost_packet_remains field product field-IsMulAdd (λ y. omega arith) 0 2 1 (first_packet ∷ []) []
      second_packet (omega arith, (omega arith, tt)) (omega arith)
