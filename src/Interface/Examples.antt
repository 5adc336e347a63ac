-- ===== src/Interface/Examples.antt =====
-- The C interface: tests.
use siamese.Prelude.{◌≡◌, refl, none, some, [], ◌∷◌}
use siamese.Decoder.Window.{SiameseOriginalPacket, success, failure}
use siamese.Interface.{
  siamese_need_more_data, siamese_success, gf256_init_, siamese_init, siamese_encoder_create, add,
  acknowledge, get_recovery_packet, siamese_encoder_add, siamese_encoder_retransmit,
  siamese_encoder_get_recovery, siamese_acknowledge,
}

abbrev packet : SiameseOriginalPacket
packet = record { packet_data = 100; data_bytes = 3; packet_num = 0 }

init_test : siamese_init ≡ 0
unfolding siamese_init gf256_init_
init_test = refl

add_test : siamese_encoder_add siamese_encoder_create (some packet) ≡ siamese_success
unfolding siamese_encoder_add siamese_encoder_create add
add_test = refl

retransmit_test : siamese_encoder_retransmit siamese_encoder_create none ≡ siamese_need_more_data
unfolding siamese_encoder_retransmit siamese_encoder_create
retransmit_test = refl

-- Success, with the buffer and the number of bytes as they were.
recovery_test :
    siamese_encoder_get_recovery siamese_encoder_create 0 (some (1 ∷ 2 ∷ [])) (some 7)
    ≡ (success, some (1 ∷ 2 ∷ []), some 7)
unfolding siamese_encoder_get_recovery siamese_encoder_create get_recovery_packet
recovery_test = refl

null_test : siamese_acknowledge none (some []) (some 7) ≡ (failure, some 7)
unfolding siamese_acknowledge
null_test = refl

acknowledge_test : siamese_acknowledge siamese_encoder_create (some []) (some 7) ≡ (success, some 7)
unfolding siamese_acknowledge siamese_encoder_create acknowledge
acknowledge_test = refl
