-- ===== src/Decoder/RecoveryPackets/Order.antt =====
-- What DeletePacketsBefore leaves of a list in the order of its ends.
use siamese.Prelude.{
  ℕ, ◌≤◌, ◌<◌, ◌≡◌, refl, sym, ap, arith, List, [], ◌∷◌, leb, if◌then◌else◌, Bool-cases, inl, inr,
}
use siamese.Allocator.System.{System}
use siamese.Decoder.RecoveryPackets.{
  RecoveryPacket, RecoveryPacketList, free_data, delete_before, delete_packets_before, free_all,
}

-- The packets that end behind an element, and those that end at it or before.
abbrev pub ending_behind : ℕ → List RecoveryPacket → List RecoveryPacket
ending_behind element [] = []
ending_behind element (packet ∷ packets) =
    let rest = ending_behind element packets in
    if leb packet.element_end element then rest else packet ∷ rest

abbrev pub ending_before : ℕ → List RecoveryPacket → List RecoveryPacket
ending_before element [] = []
ending_before element (packet ∷ packets) =
    let rest = ending_before element packets in
    if leb packet.element_end element then packet ∷ rest else rest

-- Every packet of the list ends at an element or behind it; the ends do not decrease.
abbrev pub EndsFrom : ℕ → List RecoveryPacket → Type 0
EndsFrom element [] = Unit {0}
EndsFrom element (packet ∷ packets) = (element ≤ packet.element_end) × EndsFrom element packets

abbrev pub IsOrdered : List RecoveryPacket → Type 0
IsOrdered [] = Unit {0}
IsOrdered (packet ∷ packets) = EndsFrom packet.element_end packets × IsOrdered packets

all_behind :
    (element limit : ℕ) (packets : List RecoveryPacket)
    → element < limit
    → EndsFrom limit packets
    → (ending_behind element packets ≡ packets) × (ending_before element packets ≡ [])
all_behind element limit [] h ends = (refl, refl)
all_behind element limit (packet ∷ packets) h (here, ends) =
    let rest = all_behind element limit packets h ends in
    (ground (arith, rest.0), ground (arith, rest.1))

delete_before-eq-ending_behind :
    (element : ℕ) (system : System) (packets : List RecoveryPacket)
    → IsOrdered packets
    → ((delete_before element system packets).packets ≡ ending_behind element packets)
      × ((delete_before element system packets).system
          ≡ free_all system (ending_before element packets))
unfolding delete_before free_all
delete_before-eq-ending_behind element system [] ordered = (refl, refl)
delete_before-eq-ending_behind element system (packet ∷ packets) (ends, ordered) =
    elim (Bool-cases (leb packet.element_end element)) [
      | inl t ↦
          rw (t, ending_behind, ending_before)
            (delete_before-eq-ending_behind element (free_data system packet) packets ordered)
      | inr t ↦
          let rest = all_behind element packet.element_end packets (ground arith) ends in
          rw (t, ending_behind, ending_before)
            (
              ap (λ (xs : List RecoveryPacket). packet ∷ xs) (sym rest.0),
              ap (free_all system) (sym rest.1),
            )
    ]

-- Of a list in the order of its ends, DeletePacketsBefore keeps the packets that end behind the
-- element, in their order, and frees the data of the others, one after the other.
pub delete_packets_before-eq-ending_behind :
    (element : ℕ) (s : RecoveryPacketList)
    → IsOrdered s.packets
    → ((delete_packets_before element s).packets ≡ ending_behind element s.packets)
      × ((delete_packets_before element s).system
          ≡ free_all s.system (ending_before element s.packets))
unfolding delete_packets_before
delete_packets_before-eq-ending_behind element s ordered =
    delete_before-eq-ending_behind element s.system s.packets ordered
