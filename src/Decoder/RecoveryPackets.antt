-- ===== src/Decoder/RecoveryPackets.antt =====
-- RecoveryPacketList of RecoveryPacketList.h, over the system's heap.
pub mod Order
use siamese.Prelude.{ℕ, ◌≤◌, List, [], ◌∷◌, ◌++◌, leb, ◌==◌, if◌then◌else◌}
use siamese.Allocator.System.{System, remove_block}

pub record RecoveryPacket : Type 0 where
  pub data_ptr : ℕ
  pub data_bytes : ℕ
  pub element_start : ℕ
  pub element_end : ℕ

-- The list with the heap that the data of its packets lies in; a packet is its own pointer.
pub record RecoveryPacketList : Type 0 where
  pub system : System
  pub packets : List RecoveryPacket

-- RecoveryPacket::Free, of a packet that is deleted next.
unfoldable pub free_data : System → RecoveryPacket → System
free_data system packet =
    if packet.data_ptr == 0
    then system
    else record system { blocks = remove_block system.blocks packet.data_ptr }

unfoldable pub insert : RecoveryPacket → RecoveryPacketList → RecoveryPacketList
insert packet s = record s { packets = s.packets ++ packet ∷ [] }

-- The loop of DeletePacketsBefore.
unfoldable pub delete_before : ℕ → System → List RecoveryPacket → RecoveryPacketList
delete_before element system [] = record { system = system; packets = [] }
delete_before element system (packet ∷ packets) =
    if leb packet.element_end element
    then delete_before element (free_data system packet) packets
    else record { system = system; packets = packet ∷ packets }

unfoldable pub delete_packets_before : ℕ → RecoveryPacketList → RecoveryPacketList
delete_packets_before element s = delete_before element s.system s.packets

-- The loop of Clear.
unfoldable pub free_all : System → List RecoveryPacket → System
free_all system [] = system
free_all system (packet ∷ packets) = free_all (free_data system packet) packets

unfoldable pub clear : RecoveryPacketList → RecoveryPacketList
clear s = record { system = free_all s.system s.packets; packets = [] }
