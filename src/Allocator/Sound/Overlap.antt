-- ===== src/Allocator/Sound/Overlap.antt =====
-- Allocations in use do not overlap.
use siamese.Prelude.{ℕ, ◌+◌, ◌*◌, ◌≤◌, ◌<◌, ◌≡◌, refl, arith, ◌⊎◌, inl, inr}
use siamese.Prelude.{List, [], ◌∷◌, false, ◌==◌}
use native.Mathlib.Decide.{dec_lt}
use siamese.Allocator.State.{Allocator, region_address, unit_size}
use siamese.Allocator.Sound.{Region, owners, AllRegions, IsRecorded, IsOwned}

pub AllRegions-map :
    (P Q : Region → Type 0) (rs : List Region)
    → ((r : Region) → P r → Q r)
    → AllRegions P rs
    → AllRegions Q rs
AllRegions-map P Q [] f all = tt
AllRegions-map P Q (r ∷ rs) f (p, all) = (f r p, AllRegions-map P Q rs f all)

pub AllRegions-zip :
    (P Q : Region → Type 0) (rs : List Region)
    → AllRegions P rs
    → AllRegions Q rs
    → AllRegions (λ r. P r × Q r) rs
AllRegions-zip P Q [] p q = tt
AllRegions-zip P Q (r ∷ rs) (p, ps) (q, qs) = ((p, q), AllRegions-zip P Q rs ps qs)

-- An allocation owns each of its units.
abbrev pub OwnsUnits : List Region → Region → Type 0
OwnsUnits rs r = (j : ℕ) → r.start ≤ j → j < r.start + r.units → 1 ≤ owners rs r.window j

pub owns_units : (rs : List Region) → AllRegions (OwnsUnits rs) rs
owns_units [] = tt
owns_units (r ∷ rs) = (
  λ j lo h. ground arith,
  AllRegions-map (OwnsUnits rs) (OwnsUnits (r ∷ rs)) rs (λ q own j lo h. omega (arith, own j lo h))
      (owns_units rs),
)

-- Nothing owns a unit of a window that no allocation lies in.
pub owners_elsewhere :
    (rs : List Region) (w j : ℕ) → AllRegions (λ r. (r.window == w) ≡ false) rs → owners rs w j ≡ 0
owners_elsewhere [] w j all = refl
owners_elsewhere (r ∷ rs) w j (h, all) = ground (arith, owners_elsewhere rs w j all)

-- The bytes of two allocations, headers included, do not meet.
abbrev pub IsDisjoint : Region → Region → Type 0
IsDisjoint r q =
    (region_address r.window r.start + r.units * unit_size ≤ region_address q.window q.start)
    ⊎ (region_address q.window q.start + q.units * unit_size ≤ region_address r.window r.start)

-- The two allocations of one window have no unit in common.
units_apart :
    (r q : Region) (rs : List Region) (a : Allocator)
    → IsOwned (r ∷ rs) a
    → IsRecorded a r
    → IsRecorded a q
    → OwnsUnits rs q
    → r.window ≡ q.window
    → (r.start + r.units ≤ q.start) ⊎ (q.start + q.units ≤ r.start)
units_apart r q rs a own ir iq units e = elim (dec_lt q.start (r.start + r.units)) [
  | no h ↦ inl (omega arith)
  | yes h ↦ elim (dec_lt r.start (q.start + q.units)) [
    | no k ↦ inr (omega arith)
    | yes k ↦ elim (dec_lt r.start q.start) [
      | yes l ↦ absurd (ground (arith, own.owned q.window q.start iq.0, units q.start))
      | no l ↦ absurd (ground (arith, own.owned q.window r.start iq.0, units r.start))
    ]
  ]
]

IsDisjoint-pair :
    (r q : Region) (rs : List Region) (a : Allocator)
    → IsOwned (r ∷ rs) a
    → IsRecorded a r
    → IsRecorded a q
    → OwnsUnits rs q
    → IsDisjoint r q
IsDisjoint-pair r q rs a own ir iq units = elim (dec_lt r.window q.window) [
  | yes h ↦ inl (omega (arith, own.apart r.window q.window ir.0 iq.0 h, ir.2))
  | no h ↦ elim (dec_lt q.window r.window) [
    | yes k ↦ inr (omega (arith, own.apart q.window r.window iq.0 ir.0 k, iq.2))
    | no k ↦ elim (units_apart r q rs a own ir iq units (omega arith)) [
      | inl l ↦ inl (omega arith)
      | inr l ↦ inr (omega arith)
    ]
  ]
]

-- The first of the allocations of a state meets none of the others.
pub live-IsDisjoint :
    (r : Region) (rs : List Region) (a : Allocator)
    → IsOwned (r ∷ rs) a
    → AllRegions (IsDisjoint r) rs
live-IsDisjoint r rs a own =
    AllRegions-map (λ q. IsRecorded a q × OwnsUnits rs q) (IsDisjoint r) rs
      (λ q p. IsDisjoint-pair r q rs a own own.recorded.0 p.0 p.1)
      (AllRegions-zip (IsRecorded a) (OwnsUnits rs) rs own.recorded.1 (owns_units rs))
