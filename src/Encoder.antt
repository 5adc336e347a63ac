-- ===== src/Encoder.antt =====
-- The class Encoder of Encoder.cpp, with its members as that file uses them. The finite field's
-- functions are parameters. `none` is undefined behaviour: a read behind the end of a packet.
mod Examples
pub mod Recovery
pub mod Loss
use siamese.Prelude.{ℕ, zero, suc, ◌+◌, ◌%◌, ◌≡◌, Bool, true, false, ◌||◌, Option, none, some, u32}
use siamese.Prelude.{List, [], ◌∷◌, ◌++◌, ltb, ◌==◌, if◌then◌else◌}
use siamese.Prelude.Lists.{length, drop}
use siamese.Prelude.Memory.{Memory}
use siamese.Buffer.Contents.{bytes_at, zeros}

-- gf256_exp, and gf256_muladd_mem on as many bytes as its first argument has.
pub record Gf256 : Type 0 where
  pub gf256_exp : ℕ → ℕ
  pub gf256_muladd_mem : List ℕ → ℕ → List ℕ → List ℕ

pub record SiameseOriginalPacket : Type 0 where
  pub data_ptr : ℕ
  pub data_bytes : ℕ
  pub packet_num : ℕ

pub record OriginalPacket : Type 0 where
  pub packet_data : List ℕ
  pub data_bytes : ℕ
  pub packet_num : ℕ

pub record Encoder : Type 0 where
  pub originals : List OriginalPacket
  pub packet_count : ℕ

unfoldable pub new_encoder : Encoder
new_encoder = record { originals = []; packet_count = 0 }

unfoldable pub add : Memory → SiameseOriginalPacket → Encoder → Bool × Encoder
add m packet s = if packet.data_ptr == 0 || packet.data_bytes == 0 then (false, s) else (
  true,
  record {
    originals =
        s.originals
        ++ record {
          packet_data = bytes_at m packet.data_ptr packet.data_bytes;
          data_bytes = packet.data_bytes;
          packet_num = packet.packet_num;
        }
          ∷ [];
    packet_count = u32 (s.packet_count + 1);
  },
)

unfoldable pub retransmit : Memory → SiameseOriginalPacket → Encoder → Bool × Encoder
retransmit m packet s = add m packet s

-- A read of n bytes from where a vector's data starts.
unfoldable pub read_bytes : ℕ → List ℕ → Option (List ℕ)
read_bytes zero bytes = some []
read_bytes (suc n) [] = none
read_bytes (suc n) (b ∷ bytes) = elim (read_bytes n bytes) [
  | none ↦ none
  | some rest ↦ some (b ∷ rest)
]

-- The loop over the originals, from place id + i on. gf256_muladd_mem reads size bytes of each.
unfoldable pub muladd_originals : Gf256 → ℕ → ℕ → List OriginalPacket → List ℕ → Option (List ℕ)
muladd_originals gf place size [] sum = some sum
muladd_originals gf place size (packet ∷ packets) sum = elim (read_bytes size packet.packet_data) [
  | none ↦ none
  | some bytes ↦
      muladd_originals gf (suc place) size packets
        (gf.gf256_muladd_mem sum (gf.gf256_exp (place % 255)) bytes)
]

-- The buffer is the bytes that it has. The result is the returned value, the buffer and packetSize.
unfoldable pub get_recovery_packet : Gf256 → ℕ → List ℕ → ℕ → Encoder → Option (Bool × List ℕ × ℕ)
get_recovery_packet gf id buffer packet_size s = elim s.originals [
  | [] ↦ some (false, buffer, packet_size)
  | first ∷ others ↦
      let size = first.data_bytes in
      if length buffer == 0
      then some (false, buffer, packet_size)
      else if ltb (length buffer) size
      then some (false, buffer, packet_size)
      else elim (muladd_originals gf id size (first ∷ others) (zeros size)) [
        | none ↦ none
        | some sum ↦ some (true, sum ++ drop size buffer, size)
      ]
]

-- The data is not looked at: the result is the returned value and acknowledgedCount.
unfoldable pub acknowledge : List ℕ → Encoder → Bool × ℕ
acknowledge data_read s = (true, s.packet_count)
