-- ===== src/Serializers/Stream/Sequence.antt =====
-- A sequence of fields written to a stream and read back by a stream over the same buffer.
use siamese.Prelude.{ℕ, ◌+◌, ◌^◌, ◌≤◌, ◌<◌, ◌≡◌, ◌∙◌, refl, arith, ◌⊎◌, List, [], ◌∷◌}
use siamese.Prelude.Memory.{Memory, Agree, IsBytes}
use siamese.Serializers.Pod.Laws.{value_le_local}
use siamese.Serializers.Stream.Write.{WriteByteStream}
use siamese.Serializers.Stream.Read.{ReadByteStream}
use siamese.Serializers.Stream.Laws.{
  Width, size, write, read, write_state, write_keeps, write_field-IsBytes, write_value, read_value,
  read_state,
}

unfoldable pub write_all : List (Width × ℕ) → WriteByteStream → Memory → WriteByteStream × Memory
write_all [] s m = (s, m)
write_all ((w, v) ∷ fields) s m = let next = write w s m v in write_all fields next.0 next.1

unfoldable pub read_all : List Width → ReadByteStream → Memory → List ℕ × ReadByteStream
read_all [] s m = ([], s)
read_all (w ∷ ws) s m =
    let first = read w s m in let rest = read_all ws first.1 m in (first.0 ∷ rest.0, rest.1)

abbrev pub widths : List (Width × ℕ) → List Width
widths [] = []
widths ((w, v) ∷ fields) = w ∷ widths fields

abbrev pub values : List (Width × ℕ) → List ℕ
values [] = []
values ((w, v) ∷ fields) = v ∷ values fields

abbrev pub total : List (Width × ℕ) → ℕ
total [] = 0
total ((w, v) ∷ fields) = size w + total fields

-- Every value fits the width that it is written with.
abbrev pub AllFit : List (Width × ℕ) → Type 0
AllFit [] = Unit {0}
AllFit ((w, v) ∷ fields) = (v < 256 ^ size w) × AllFit fields

write_all_state :
    (fields : List (Width × ℕ)) (s : WriteByteStream) (m : Memory)
    → s.written_bytes + total fields < 2 ^ 32
    → (write_all fields s m).0 ≡ record s { written_bytes = s.written_bytes + total fields }
unfolding write_all
write_all_state [] s m h = ground arith
write_all_state ((w, v) ∷ fields) s m h =
    let next = write w s m v in
    ground (arith, write_state w s m v, write_all_state fields next.0 next.1)

write_all_keeps :
    (fields : List (Width × ℕ)) (s : WriteByteStream) (m : Memory) (j : ℕ)
    → s.written_bytes + total fields < 2 ^ 32
    → (j < s.address + s.written_bytes) ⊎ (s.address + s.written_bytes + total fields ≤ j)
    → (write_all fields s m).1 j ≡ m j
unfolding write_all
write_all_keeps [] s m j h out = refl
write_all_keeps ((w, v) ∷ fields) s m j h out =
    let next = write w s m v in
    ground
      (arith, write_state w s m v, write_keeps w s m v j, write_all_keeps fields next.0 next.1 j)

write_all-IsBytes :
    (fields : List (Width × ℕ)) (s : WriteByteStream) (m : Memory)
    → IsBytes m
    → IsBytes (write_all fields s m).1
unfolding write_all
write_all-IsBytes [] s m bytes = bytes
write_all-IsBytes ((w, v) ∷ fields) s m bytes =
    let next = write w s m v in
    write_all-IsBytes fields next.0 next.1 (write_field-IsBytes w s m v bytes)

-- Fields that fit their widths, written one after the other, read back in the same order from a
-- stream that stands at the same address, as long as neither 32-bit cursor wraps; the reader ends
-- behind the last field.
pub fields_round_trip :
    (fields : List (Width × ℕ)) (s : WriteByteStream) (m : Memory) (r : ReadByteStream)
    → AllFit fields
    → IsBytes m
    → s.address + s.written_bytes ≡ r.address + r.bytes_read
    → s.written_bytes + total fields < 2 ^ 32
    → r.bytes_read + total fields < 2 ^ 32
    → read_all (widths fields) r (write_all fields s m).1
      ≡ (values fields, record r { bytes_read = r.bytes_read + total fields })
unfolding write_all read_all
fields_round_trip [] s m r fit bytes e hs hr = ground arith
fields_round_trip ((w, v) ∷ fields) s m r fit bytes e hs hr =
    let next = write w s m v in
    let final = (write_all fields next.0 next.1).1 in
    let final_bytes : IsBytes final =
      write_all-IsBytes fields next.0 next.1 (write_field-IsBytes w s m v bytes) in
    let state = write_state w s m v (omega arith) in
    let kept : Agree final next.1 (s.address + s.written_bytes)
        (s.address + s.written_bytes + size w) =
      λ j lo hi. ground (arith, state, write_all_keeps fields next.0 next.1 j) in
    let first : (read w r final).0 ≡ v =
      read_value w r final final_bytes
      ∙ ground (
        arith,
        value_le_local (size w) final next.1 (s.address + s.written_bytes) kept,
        write_value w s m v fit.0,
      ) in
    ground (
      arith,
      first,
      state,
      read_state w r final,
      fields_round_trip fields next.0 next.1 (read w r final).1 fit.1
          (write_field-IsBytes w s m v bytes),
    )
