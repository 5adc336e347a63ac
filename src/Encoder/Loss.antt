-- ===== src/Encoder/Loss.antt =====
-- One lost packet, out of a recovery packet.
use siamese.Prelude.{ℕ, zero, suc, ◌+◌, ◌%◌, ◌<◌, ◌≡◌, refl, sym, ap, ◌∙◌, arith, bit_xor, some}
use siamese.Prelude.{List, [], ◌∷◌, ◌++◌}
use siamese.Prelude.Xor.{bit_xor_swap, bit_xor_twice, bit_xor_zero-right}
use siamese.Prelude.Lists.{length, get_or}
use siamese.Buffer.Contents.{bytes_at, zeros, bytes_at-zeros}
use siamese.Encoder.{Gf256, OriginalPacket, muladd_originals}
use siamese.Encoder.Recovery.{
  IsMulAdd, combination, AtLeast, muladd_originals-combination, get_or-bytes_at,
}

-- A packet of the same size whose bytes are 0, in place of the lost one.
abbrev pub blank : OriginalPacket → OriginalPacket
blank packet = record packet { packet_data = zeros (length packet.packet_data) }

get_or-zeros : (n j : ℕ) → get_or (zeros n) j 0 ≡ 0
get_or-zeros zero j = refl
get_or-zeros (suc n) zero = refl
get_or-zeros (suc n) (suc j) = get_or-zeros n j

length-zeros : (n : ℕ) → length (zeros n) ≡ n
length-zeros zero = refl
length-zeros (suc n) = ap suc (length-zeros n)

blank-AtLeast :
    (size : ℕ) (front back : List OriginalPacket) (lost : OriginalPacket)
    → AtLeast size (front ++ lost ∷ back)
    → AtLeast size (front ++ blank lost ∷ back)
blank-AtLeast size [] back lost (h, k) = (omega (arith, length-zeros (length lost.packet_data)), k)
blank-AtLeast size (packet ∷ front) back lost (h, k) = (h, blank-AtLeast size front back lost k)

module _ (gf : Gf256) (mul : ℕ → ℕ → ℕ) where
  combination-append :
      (place : ℕ) (front back : List OriginalPacket) (j v : ℕ)
      → combination gf mul place (front ++ back) j v
        ≡ combination gf mul (place + length front) back j (combination gf mul place front j v)
  combination-append place [] back j v =
      ap (λ (n : ℕ). combination gf mul n back j v) (let e : place ≡ place + 0 = omega arith in e)
  combination-append place (packet ∷ front) back j v =
      let w = bit_xor v (mul (gf.gf256_exp (place % 255)) (get_or packet.packet_data j 0)) in
      combination-append (suc place) front back j w
      ∙ ap (λ (n : ℕ). combination gf mul n back j (combination gf mul (suc place) front j w))
          (let e : suc place + length front ≡ place + suc (length front) = omega arith in e)

  -- What is added before is added behind.
  combination_shift :
      (place : ℕ) (packets : List OriginalPacket) (j v u : ℕ)
      → combination gf mul place packets j (bit_xor v u)
        ≡ bit_xor (combination gf mul place packets j v) u
  combination_shift place [] j v u = refl
  combination_shift place (packet ∷ packets) j v u =
      let t = mul (gf.gf256_exp (place % 255)) (get_or packet.packet_data j 0) in
      ap (combination gf mul (suc place) packets j) (bit_xor_swap v u t)
      ∙ combination_shift (suc place) packets j (bit_xor v t) u

  -- The two combinations differ by the lost byte times its factor.
  combination_lost :
      ((y : ℕ) → mul y 0 ≡ 0)
      → (place : ℕ) (front back : List OriginalPacket) (lost : OriginalPacket) (j v : ℕ)
      → bit_xor
          (combination gf mul place (front ++ lost ∷ back) j v)
          (combination gf mul place (front ++ blank lost ∷ back) j v)
        ≡ mul (gf.gf256_exp ((place + length front) % 255)) (get_or lost.packet_data j 0)
  combination_lost no_product place front back lost j v =
      let n = place + length front in
      let factor = gf.gf256_exp (n % 255) in
      let c = combination gf mul place front j v in
      let t = mul factor (get_or lost.packet_data j 0) in
      let d = combination gf mul (suc n) back j c in
      let with_it : combination gf mul place (front ++ lost ∷ back) j v ≡ bit_xor d t =
        combination-append place front (lost ∷ back) j v ∙ combination_shift (suc n) back j c t in
      let without : combination gf mul place (front ++ blank lost ∷ back) j v ≡ d =
        combination-append place front (blank lost ∷ back) j v
        ∙ ap (combination gf mul (suc n) back j) (
            ap (λ (x : ℕ). bit_xor c (mul factor x)) (get_or-zeros (length lost.packet_data) j)
            ∙ ap (bit_xor c) (no_product factor)
            ∙ bit_xor_zero-right c) in
      ap (λ (x : ℕ). bit_xor x (combination gf mul place (front ++ blank lost ∷ back) j v)) with_it
      ∙ ap (bit_xor (bit_xor d t)) without
      ∙ bit_xor_twice d t

  -- If gf256_muladd_mem is as documented, a product with 0 is 0, and no original has fewer bytes
  -- than the size, then the sum that GetRecoveryPacket computes over all originals and the one that
  -- it computes with a lost original replaced by zeros both exist, and combined by exclusive or they
  -- leave, in each byte of the size, the lost byte times the factor of its place.
  pub lost_packet_remains :
      IsMulAdd gf mul
      → ((y : ℕ) → mul y 0 ≡ 0)
      → (id size j : ℕ) (front back : List OriginalPacket) (lost : OriginalPacket)
      → AtLeast size (front ++ lost ∷ back)
      → j < size
      → (sum known : List ℕ) × (muladd_originals gf id size (front ++ lost ∷ back) (zeros size)
          ≡ some sum)
        × (muladd_originals gf id size (front ++ blank lost ∷ back) (zeros size) ≡ some known)
        × (bit_xor (get_or sum j 0) (get_or known j 0)
            ≡ mul (gf.gf256_exp ((id + length front) % 255)) (get_or lost.packet_data j 0))
  lost_packet_remains documented no_product id size j front back lost enough inside =
      let byte = λ (packets : List OriginalPacket) (k : ℕ). combination gf mul id packets k 0 in
      let all = front ++ lost ∷ back in
      let rest = front ++ blank lost ∷ back in
      let zero_sum =
        ap (λ (z : List ℕ). muladd_originals gf id size all z) (sym (bytes_at-zeros 0 size)) in
      let zero_known =
        ap (λ (z : List ℕ). muladd_originals gf id size rest z) (sym (bytes_at-zeros 0 size)) in
      let at : (m : ℕ → ℕ) → get_or (bytes_at m 0 size) j 0 ≡ m j =
        λ m. get_or-bytes_at m 0 size j inside ∙ ap m (let e : 0 + j ≡ j = omega arith in e) in
      (
        bytes_at (byte all) 0 size,
        bytes_at (byte rest) 0 size,
        zero_sum ∙ muladd_originals-combination gf mul documented id size all (λ k. 0) enough,
        zero_known
            ∙ muladd_originals-combination gf mul documented id size rest (λ k. 0)
                (blank-AtLeast size front back lost enough),
        ap (λ (x : ℕ). bit_xor x (get_or (bytes_at (byte rest) 0 size) j 0)) (at (byte all))
            ∙ ap (bit_xor (byte all j)) (at (byte rest))
            ∙ combination_lost no_product id front back lost j 0,
      )
