-- ===== src/Encoder/Recovery.antt =====
-- What a recovery packet holds.
use siamese.Prelude.{
  ℕ, zero, suc, ◌+◌, ◌%◌, ◌≤◌, ◌<◌, ◌≡◌, refl, sym, ap, ◌∙◌, arith, bit_xor, Bool, true, Option,
  none, some,
}
use siamese.Prelude.{List, [], ◌∷◌, ◌++◌, ltb, ◌==◌, if_cases}
use siamese.Prelude.Lists.{length, take, drop, get_or, get_or-take, length-take}
use siamese.Prelude.Memory.{Memory}
use siamese.Buffer.Contents.{bytes_at, zeros, bytes_at-same, bytes_at-zeros}
use siamese.Encoder.{
  Gf256, OriginalPacket, Encoder, read_bytes, muladd_originals, get_recovery_packet,
}

-- What is documented of gf256_muladd_mem: byte by byte, z ^= y * x.
abbrev pub IsMulAdd : Gf256 → (ℕ → ℕ → ℕ) → Type 0
IsMulAdd gf mul =
    (y : ℕ) (z x : List ℕ)
    → length x ≡ length z
    → gf.gf256_muladd_mem z y x
      ≡ bytes_at (λ j. bit_xor (get_or z j 0) (mul y (get_or x j 0))) 0 (length z)

-- Byte j of the combination of packets, the i-th times the exponential of place + i.
abbrev pub combination : Gf256 → (ℕ → ℕ → ℕ) → ℕ → List OriginalPacket → ℕ → ℕ → ℕ
combination gf mul place [] j v = v
combination gf mul place (packet ∷ packets) j v =
    combination gf mul (suc place) packets j
      (bit_xor v (mul (gf.gf256_exp (place % 255)) (get_or packet.packet_data j 0)))

-- Every packet has at least size bytes.
abbrev pub AtLeast : ℕ → List OriginalPacket → Type 0
AtLeast size [] = Unit {0}
AtLeast size (packet ∷ packets) = (size ≤ length packet.packet_data) × AtLeast size packets

pub length-bytes_at : (m : Memory) (p n : ℕ) → length (bytes_at m p n) ≡ n
length-bytes_at m p zero = refl
length-bytes_at m p (suc n) = ap suc (length-bytes_at m (suc p) n)

pub get_or-bytes_at : (m : Memory) (p n j : ℕ) → j < n → get_or (bytes_at m p n) j 0 ≡ m (p + j)
get_or-bytes_at m p zero j h = absurd (omega arith)
get_or-bytes_at m p (suc n) zero h = ap m (let e : p ≡ p + 0 = omega arith in e)
get_or-bytes_at m p (suc n) (suc j) h =
    get_or-bytes_at m (suc p) n j (omega arith)
    ∙ ap m (let e : suc p + j ≡ p + suc j = omega arith in e)

-- One row of the combination.
muladd-bytes_at :
    (gf : Gf256) (mul : ℕ → ℕ → ℕ)
    → IsMulAdd gf mul
    → (size y : ℕ) (f : Memory) (x : List ℕ) → size ≤ length x
    → gf.gf256_muladd_mem (bytes_at f 0 size) y (take size x)
      ≡ bytes_at (λ j. bit_xor (f j) (mul y (get_or x j 0))) 0 size
muladd-bytes_at gf mul documented size y f x h =
    let z = bytes_at f 0 size in
    let new = λ (j : ℕ). bit_xor (get_or z j 0) (mul y (get_or (take size x) j 0)) in
    documented y z (take size x) (length-take size x h ∙ sym (length-bytes_at f 0 size))
    ∙ ap (bytes_at new 0) (length-bytes_at f 0 size)
    ∙ bytes_at-same new (λ j. bit_xor (f j) (mul y (get_or x j 0))) 0 0 size
        (λ i l.
          let old =
            get_or-bytes_at f 0 size (0 + i) (omega arith)
            ∙ ap f (let e : 0 + (0 + i) ≡ 0 + i = omega arith in e) in
          let taken = get_or-take size (0 + i) x 0 (omega arith) in cc (old, taken))

read_bytes-take : (n : ℕ) (xs : List ℕ) → n ≤ length xs → read_bytes n xs ≡ some (take n xs)
unfolding read_bytes
read_bytes-take zero xs h = refl
read_bytes-take (suc n) [] h = absurd (omega arith)
read_bytes-take (suc n) (x ∷ xs) h =
    ap (λ (o : Option (List ℕ)). elim o [ none ↦ none | some rest ↦ some (x ∷ rest) ])
      (read_bytes-take n xs (omega arith))

pub muladd_originals-combination :
    (gf : Gf256) (mul : ℕ → ℕ → ℕ)
    → IsMulAdd gf mul
    → (place size : ℕ) (packets : List OriginalPacket) (f : Memory) → AtLeast size packets
    → muladd_originals gf place size packets (bytes_at f 0 size)
      ≡ some (bytes_at (λ j. combination gf mul place packets j (f j)) 0 size)
unfolding muladd_originals
muladd_originals-combination gf mul documented place size [] f h = refl
muladd_originals-combination gf mul documented place size (packet ∷ packets) f (h, k) =
    let factor = gf.gf256_exp (place % 255) in
    let row = λ (j : ℕ). bit_xor (f j) (mul factor (get_or packet.packet_data j 0)) in
    let next = λ (bytes : List ℕ).
      muladd_originals gf (suc place) size packets
        (gf.gf256_muladd_mem (bytes_at f 0 size) factor bytes) in
    ap (λ (o : Option (List ℕ)). elim o [ none ↦ none | some bytes ↦ next bytes ])
      (read_bytes-take size packet.packet_data h)
    ∙ ap (muladd_originals gf (suc place) size packets)
        (muladd-bytes_at gf mul documented size factor f packet.packet_data h)
    ∙ muladd_originals-combination gf mul documented (suc place) size packets row k

abbrev finish : ℕ → List ℕ → Option (List ℕ) → Option (Bool × List ℕ × ℕ)
finish size buffer summed = elim summed [
  | none ↦ none
  | some sum ↦ some (true, sum ++ drop size buffer, size)
]

module _ (gf : Gf256) (id : ℕ) (buffer : List ℕ) (packet_size : ℕ) (s : Encoder)
    (first : OriginalPacket) (others : List OriginalPacket) (stored : s.originals ≡ first ∷ others)
    (some_bytes : 1 ≤ length buffer) (fits : first.data_bytes ≤ length buffer) where
  -- Past its guards GetRecoveryPacket is its loop.
  past_guards :
      get_recovery_packet gf id buffer packet_size s
      ≡ finish first.data_bytes buffer
          (muladd_originals gf id first.data_bytes (first ∷ others) (zeros first.data_bytes))
  unfolding get_recovery_packet
  past_guards =
      let loop =
        finish first.data_bytes buffer
          (muladd_originals gf id first.data_bytes (first ∷ others) (zeros first.data_bytes)) in
      let P = λ (o : Option (Bool × List ℕ × ℕ)). o ≡ loop in
      rw (stored) (
        if_cases P (length buffer == 0) (λ t. absurd (ground arith))
          (λ t.
            if_cases P (ltb (length buffer) first.data_bytes) (λ u. absurd (ground arith))
              (λ u. refl)))

  -- If gf256_muladd_mem is as documented, the buffer has room for the first original and is not
  -- empty, and no original is shorter than the first, then GetRecoveryPacket writes, for the size of
  -- the first, byte by byte the combination of the originals, with the exponentials of (id + i) %
  -- 255 as factors, and keeps the rest of the buffer.
  pub get_recovery_packet-combination :
      (mul : ℕ → ℕ → ℕ)
      → IsMulAdd gf mul
      → AtLeast first.data_bytes (first ∷ others)
      → get_recovery_packet gf id buffer packet_size s
        ≡ some (
          true,
          bytes_at (λ j. combination gf mul id (first ∷ others) j 0) 0 first.data_bytes
              ++ drop first.data_bytes buffer,
          first.data_bytes,
        )
  get_recovery_packet-combination mul documented enough =
      past_guards
      ∙ ap
          (λ (sum : List ℕ).
            finish first.data_bytes buffer
              (muladd_originals gf id first.data_bytes (first ∷ others) sum))
          (sym (bytes_at-zeros 0 first.data_bytes))
      ∙ ap (finish first.data_bytes buffer) (
          muladd_originals-combination gf mul documented id first.data_bytes (first ∷ others)
            (λ j. 0) enough)
