-- ===== src/Serializers/Fields.antt =====
-- The arithmetic of the shift-and-or expressions that every format of SiameseSerializers.h uses:
-- bytes joined to a number, and a tag set above the leading bits of a field.
use siamese.Prelude.{ℕ, ◌+◌, ◌*◌, ◌<◌, ◌≡◌, ◌∙◌, ap, arith, bit_or, ◌<<<◌}
use siamese.Prelude.Bits.{or_fields, or_fields_swapped}

pub join2 : (a b : ℕ) → b < 256 → bit_or (a <<< 8) b ≡ a * 256 + b
join2 a b h = or_fields 8 a b h

pub join3 :
    (a b c : ℕ)
    → b < 256
    → c < 256
    → bit_or (bit_or (a <<< 16) (b <<< 8)) c ≡ a * 65536 + b * 256 + c
join3 a b c hb hc =
    let high : bit_or (a <<< 16) (b <<< 8) ≡ (a * 256 + b) * 256 =
      or_fields 16 a (b * 256) (omega arith) ∙ omega arith in
    ap (λ (t : ℕ). bit_or t c) high ∙ or_fields 8 (a * 256 + b) c hc ∙ omega arith

pub join4 :
    (a b c d : ℕ)
    → b < 256
    → c < 256
    → d < 256
    → bit_or (bit_or (bit_or (a <<< 24) (b <<< 16)) (c <<< 8)) d
      ≡ a * 16777216 + b * 65536 + c * 256 + d
join4 a b c d hb hc hd =
    let top : bit_or (a <<< 24) (b <<< 16) ≡ (a * 256 + b) <<< 16 =
      or_fields 24 a (b * 65536) (omega arith) ∙ omega arith in
    ap (λ (t : ℕ). bit_or (bit_or t (c <<< 8)) d) top ∙ join3 (a * 256 + b) c d hc hd ∙ omega arith

-- The two bytes joined in the other order.
pub join2_swapped : (a b : ℕ) → b < 256 → bit_or b (a <<< 8) ≡ a * 256 + b
join2_swapped a b h = or_fields_swapped 8 a b h

-- `0x80 | x`, `0xC0 | x` and `0xE0 | x`, where `x` fits the bits that the tag leaves.
pub tag_80 : (x : ℕ) → x < 128 → bit_or 0x80 x ≡ 128 + x
tag_80 x h = or_fields 7 1 x h

pub tag_c0 : (x : ℕ) → x < 64 → bit_or 0xC0 x ≡ 192 + x
tag_c0 x h = or_fields 6 3 x h

pub tag_e0 : (x : ℕ) → x < 32 → bit_or 0xE0 x ≡ 224 + x
tag_e0 x h = or_fields 5 7 x h
