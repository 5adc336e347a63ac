-- ===== src/Decoder/Window.antt =====
-- DecoderPacketWindow, CheckedRegionState, DecoderStats and Decoder::Get.
use siamese.Prelude.{ℕ, Bool, true, false, leb, Option, none, some, if◌then◌else◌}

pub record CheckedRegionState : Type 0 where
  pub element_start : ℕ
  pub next_check_start : ℕ

unfoldable pub reset : CheckedRegionState → CheckedRegionState
reset s = record { element_start = 0; next_check_start = 0 }

pub record OriginalPacket : Type 0 where
  pub buffer_data : ℕ
  pub buffer_length : ℕ

-- The members that the operations use.
pub record DecoderPacketWindow : Type 0 where
  pub count : ℕ
  pub emergency_disabled : Bool

abbrev pub new_window : DecoderPacketWindow
new_window = record { count = 0; emergency_disabled = false }

unfoldable pub grow_window : ℕ → DecoderPacketWindow → Bool × DecoderPacketWindow
grow_window window_element_end w = (true, record w { count = window_element_end })

unfoldable pub column_to_element : ℕ → ℕ
column_to_element column = column

unfoldable pub invalid_element : DecoderPacketWindow → ℕ → Bool
invalid_element w element = leb w.count element

unfoldable pub get_window_element : DecoderPacketWindow → ℕ → Option OriginalPacket
get_window_element w element = none

pub record SiameseOriginalPacket : Type 0 where
  pub packet_data : ℕ
  pub data_bytes : ℕ
  pub packet_num : ℕ

pub data SiameseResult : Type 0 where
  success : SiameseResult
  failure : SiameseResult

-- Decoder::Get: the result, and packetOut.
unfoldable pub get :
    DecoderPacketWindow → SiameseOriginalPacket → SiameseResult × SiameseOriginalPacket
get w packet_out =
    if w.emergency_disabled
    then (failure, packet_out)
    else elim (get_window_element w (column_to_element packet_out.packet_num)) [
      | none ↦ (failure, record packet_out { packet_data = 0; data_bytes = 0 })
      | some original ↦ (
        success,
        record packet_out {
          packet_data = original.buffer_data;
          data_bytes = original.buffer_length;
        },
      )
    ]
