-- ===== src/Interface.antt =====
-- siamese.cpp: the functions of the C interface that it defines, and the class Encoder of
-- SiameseEncoder.h, whose methods do nothing. A handle or a pointer that is null is `none`.
mod Examples
use siamese.Prelude.{ℕ, zero, suc, Option, none, some, List}
use siamese.Decoder.Window.{SiameseOriginalPacket, SiameseResult, success, failure}

-- An encoder has no state.
pub data Encoder : Type 0 where
  encoder : Encoder

abbrev pub siamese_success : ℕ
siamese_success = 0

abbrev pub siamese_need_more_data : ℕ
siamese_need_more_data = 1

-- The number that a result is converted to.
abbrev pub result_number : SiameseResult → ℕ
result_number success = 0
result_number failure = 1

unfoldable pub gf256_init_ : ℕ → ℕ
gf256_init_ version = 0

unfoldable pub siamese_init : ℕ
siamese_init = gf256_init_ 1

unfoldable pub siamese_encoder_create : Option Encoder
siamese_encoder_create = some encoder

-- The methods of Encoder; what a reference is not written to is not passed.
unfoldable pub add : Encoder → SiameseOriginalPacket → SiameseResult
add e packet = success

unfoldable pub retransmit : Encoder → SiameseOriginalPacket → SiameseResult
retransmit e packet = success

unfoldable pub acknowledge : Encoder → List ℕ → ℕ → SiameseResult × ℕ
acknowledge e input acked_bytes = (success, acked_bytes)

unfoldable pub get_recovery_packet : Encoder → ℕ → List ℕ → ℕ → SiameseResult × List ℕ × ℕ
get_recovery_packet e id buffer packet_size = (success, buffer, packet_size)

unfoldable pub siamese_encoder_add : Option Encoder → Option SiameseOriginalPacket → ℕ
siamese_encoder_add (some e) (some packet) = result_number (add e packet)
siamese_encoder_add (some e) none = siamese_need_more_data
siamese_encoder_add none packet = siamese_need_more_data

unfoldable pub siamese_encoder_retransmit : Option Encoder → Option SiameseOriginalPacket → ℕ
siamese_encoder_retransmit (some e) (some packet) = result_number (retransmit e packet)
siamese_encoder_retransmit (some e) none = siamese_need_more_data
siamese_encoder_retransmit none packet = siamese_need_more_data

unfoldable pub siamese_encoder_get_statistics : Option Encoder → Option (List ℕ) → ℕ → ℕ
siamese_encoder_get_statistics e stats_out stats_count = siamese_success

-- The result, the bytes at data, and usedBytesOut. The buffer has maxBytes bytes.
unfoldable pub siamese_encoder_get_recovery :
    Option Encoder → ℕ → Option (List ℕ) → Option ℕ → SiameseResult × Option (List ℕ) × Option ℕ
siamese_encoder_get_recovery (some e) id (some buffer) (some used_bytes) =
    let (result, written, used) = get_recovery_packet e id buffer used_bytes in
    (result, some written, some used)
siamese_encoder_get_recovery (some e) id (some buffer) none = (failure, some buffer, none)
siamese_encoder_get_recovery (some e) id none used_bytes = (failure, none, used_bytes)
siamese_encoder_get_recovery none id buffer used_bytes = (failure, buffer, used_bytes)

unfoldable pub siamese_acknowledge :
    Option Encoder → Option (List ℕ) → Option ℕ → SiameseResult × Option ℕ
siamese_acknowledge (some e) (some input) (some acked) =
    let (result, acked') = acknowledge e input acked in (result, some acked')
siamese_acknowledge (some e) (some input) none = (failure, none)
siamese_acknowledge (some e) none acked = (failure, acked)
siamese_acknowledge none input acked = (failure, acked)
