-- ===== src/Decoder/Examples.antt =====
-- The decoder's parts: tests, and the theorem on its list at a list that meets its condition.
use siamese.Prelude.{◌≡◌, refl, arith, true, [], ◌∷◌}
use siamese.Allocator.System.{remove_block}
use siamese.Decoder.RecoveryPackets.{
  RecoveryPacket, RecoveryPacketList, free_data, insert, delete_before, delete_packets_before,
  free_all, clear,
}
use siamese.Decoder.RecoveryPackets.Order.{
  ending_behind, ending_before, delete_packets_before-eq-ending_behind,
}
use siamese.Decoder.Window.{
  new_window, reset, grow_window, invalid_element, get, get_window_element, column_to_element,
  failure,
}

abbrev first_packet : RecoveryPacket
first_packet = record { data_ptr = 100; data_bytes = 8; element_start = 0; element_end = 4 }

abbrev second_packet : RecoveryPacket
second_packet = record { data_ptr = 200; data_bytes = 8; element_start = 2; element_end = 9 }

abbrev two_packets : RecoveryPacketList
two_packets = record {
  system = record {
    memory = λ j. 0;
    blocks = record { address = 100; size = 8 } ∷ record { address = 200; size = 8 } ∷ [];
  };
  packets = first_packet ∷ second_packet ∷ [];
}

delete_test : delete_packets_before 4 two_packets ≡ record {
  system = record { memory = λ j. 0; blocks = record { address = 200; size = 8 } ∷ [] };
  packets = second_packet ∷ [];
}
unfolding delete_packets_before delete_before free_data remove_block
delete_test = refl

clear_test : (clear two_packets).system.blocks ≡ []
unfolding clear free_all free_data remove_block
clear_test = refl

-- Behind a packet that ends later, one that ends at the element stays.
unordered_test :
    (delete_packets_before 4
      (insert first_packet (record two_packets { packets = second_packet ∷ [] }))).packets
    ≡ second_packet ∷ first_packet ∷ []
unfolding delete_packets_before delete_before insert
unordered_test = refl

reset_test :
    reset (record { element_start = 3; next_check_start = 5 })
    ≡ record { element_start = 0; next_check_start = 0 }
unfolding reset
reset_test = refl

invalid_test : invalid_element (grow_window 5 new_window).1 5 ≡ true
unfolding invalid_element grow_window
invalid_test = refl

delete_packets_before-eq-ending_behind_example :
    ((delete_packets_before 4 two_packets).packets ≡ ending_behind 4 two_packets.packets)
    × ((delete_packets_before 4 two_packets).system
        ≡ free_all two_packets.system (ending_before 4 two_packets.packets))
delete_packets_before-eq-ending_behind_example =
    delete_packets_before-eq-ending_behind 4 two_packets ((omega arith, tt), (tt, tt))

-- Every packet is refused, and the output cleared.
get_test :
    get new_window (record { packet_data = 5; data_bytes = 3; packet_num = 1 })
    ≡ (failure, record { packet_data = 0; data_bytes = 0; packet_num = 1 })
unfolding get get_window_element column_to_element
get_test = refl
