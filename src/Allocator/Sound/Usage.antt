-- ===== src/Allocator/Sound/Usage.antt =====
-- GetMemoryUsedBytes counts the units of the allocations in use.
use siamese.Prelude.{
  ℕ, zero, suc, ◌+◌, ◌-◌, ◌*◌, ◌^◌, ◌≤◌, ◌≡◌, ◌≢◌, refl, ap, ◌∙◌, arith, u32, inl, inr,
}
use siamese.Prelude.{List, [], ◌∷◌, Bool, false, ◌==◌, if◌then◌else◌, Bool-cases}
use native.Mathlib.Nat.{mul-suc}
use native.Mathlib.Decide.{dec_lt}
use siamese.Prelude.Lists.{count}
use siamese.Allocator.BitSet.{check}
use siamese.Allocator.BitSet.Count.{tally, range_popcount-eq-tally}
use siamese.Allocator.Window.{window_max_units}
use siamese.Allocator.State.{Allocator, unit_size}
use siamese.Allocator.Report.{add_used, get_memory_used_bytes}
use siamese.Allocator.Sound.{Region, covers, owners, listed, AllRegions, IsRecorded, IsOwned}

-- The units of all allocations.
abbrev pub total_units : List Region → ℕ
total_units [] = 0
total_units (r ∷ rs) = r.units + total_units rs

-- How often the n units from i on are owned.
owned_from : List Region → ℕ → ℕ → ℕ → ℕ
owned_from live w i zero = 0
owned_from live w i (suc n) = owners live w i + owned_from live w (suc i) n

covered_from : Region → ℕ → ℕ → ℕ → ℕ
covered_from r w i zero = 0
covered_from r w i (suc n) = covers r w i + covered_from r w (suc i) n

owned_from_none : (w i n : ℕ) → owned_from [] w i n ≡ 0
unfolding owned_from
owned_from_none w i zero = refl
owned_from_none w i (suc n) = omega (arith, owned_from_none w (suc i) n)

owned_from_more :
    (r : Region) (rs : List Region) (w i n : ℕ)
    → owned_from (r ∷ rs) w i n ≡ covered_from r w i n + owned_from rs w i n
unfolding owned_from covered_from
owned_from_more r rs w i zero = refl
owned_from_more r rs w i (suc n) = omega (arith, owned_from_more r rs w (suc i) n)

-- Below the end of the allocation lie the units that it covers and those below its start.
covered_from_lem :
    (r : Region) (w i n : ℕ)
    → r.window ≡ w
    → covered_from r w i n + (r.start - i - (r.start - (i + n)))
      ≡ r.start + r.units - i - (r.start + r.units - (i + n))
unfolding covered_from
covered_from_lem r w i zero e = omega arith
covered_from_lem r w i (suc n) e = ground (arith, covered_from_lem r w (suc i) n e)

covered_elsewhere : (r : Region) (w i n : ℕ) → (r.window == w) ≡ false → covered_from r w i n ≡ 0
unfolding covered_from
covered_elsewhere r w i zero t = refl
covered_elsewhere r w i (suc n) t = ground (arith, covered_elsewhere r w (suc i) n t)

covered_window :
    (r : Region) (w : ℕ)
    → r.start + r.units ≤ window_max_units
    → covered_from r w 0 window_max_units ≡ (if r.window == w then r.units else 0)
covered_window r w fit = elim (Bool-cases (r.window == w)) [
  | inl t ↦ ground (arith, covered_from_lem r w 0 window_max_units)
  | inr t ↦ ground (arith, covered_elsewhere r w 0 window_max_units t)
]

-- The units owned in the windows of a list.
owned_in : List Region → List ℕ → ℕ
owned_in live [] = 0
owned_in live (w ∷ ws) = owned_from live w 0 window_max_units + owned_in live ws

owned_in_none : (ws : List ℕ) → owned_in [] ws ≡ 0
unfolding owned_in
owned_in_none [] = refl
owned_in_none (w ∷ ws) = omega (arith, owned_from_none w 0 window_max_units, owned_in_none ws)

owned_in_more :
    (r : Region) (rs : List Region) (ws : List ℕ)
    → r.start + r.units ≤ window_max_units
    → owned_in (r ∷ rs) ws ≡ r.units * count r.window ws + owned_in rs ws
unfolding owned_in
owned_in_more r rs [] fit = omega arith
owned_in_more r rs (w ∷ ws) fit =
    let m = count r.window ws in
    let step : r.units * suc m ≡ r.units * m + r.units = omega (arith, mul-suc r.units m) in
    ground (
      arith,
      owned_from_more r rs w 0 window_max_units,
      covered_window r w fit,
      owned_in_more r rs ws fit,
      step,
    )

-- Every allocation lies in one window of the two lists.
owned_everywhere :
    (live : List Region) (a : Allocator)
    → AllRegions (IsRecorded a) live
    → ((w : ℕ) → listed a w ≤ 1)
    → owned_in live a.preferred + owned_in live a.full ≡ total_units live
owned_everywhere [] a recorded once = omega (arith, owned_in_none a.preferred, owned_in_none a.full)
owned_everywhere (r ∷ rs) a (rec, recorded) once =
    let one : (count r.window a.preferred + count r.window a.full) ≡ 1 =
      omega (arith, rec.0, once r.window) in
    let p = count r.window a.preferred in
    let f = count r.window a.full in
    elim (dec_lt 0 f) [
      | yes h ↦
          let ep : r.units * p ≡ r.units * 0 =
            ap (λ (x : ℕ). r.units * x) (let e : p ≡ 0 = omega arith in e) in
          let ef : r.units * f ≡ r.units * 1 =
            ap (λ (x : ℕ). r.units * x) (let e : f ≡ 1 = omega arith in e) in
          omega (
            arith,
            owned_in_more r rs a.preferred rec.2,
            owned_in_more r rs a.full rec.2,
            owned_everywhere rs a recorded once,
            ep,
            ef,
          )
      | no h ↦
          let ep : r.units * p ≡ r.units * 1 =
            ap (λ (x : ℕ). r.units * x) (let e : p ≡ 1 = omega arith in e) in
          let ef : r.units * f ≡ r.units * 0 =
            ap (λ (x : ℕ). r.units * x) (let e : f ≡ 0 = omega arith in e) in
          omega (
            arith,
            owned_in_more r rs a.preferred rec.2,
            owned_in_more r rs a.full rec.2,
            owned_everywhere rs a recorded once,
            ep,
            ef,
          )
    ]

module _ (live : List Region) (a : Allocator) (own : IsOwned live a) where
  tally_owned :
      (w : ℕ)
      → 1 ≤ listed a w
      → (n i : ℕ) → i + n ≤ window_max_units
      → tally (check (a.windows w).used) i n ≡ owned_from live w i n
  unfolding tally owned_from
  tally_owned w l zero i h = refl
  tally_owned w l (suc n) i h =
      ground (arith, own.owned w i l (omega arith), tally_owned w l n (suc i) (omega arith))

  window_units :
      (w : ℕ)
      → 1 ≤ listed a w
      → (w ≢ 0)
        × (u32 (window_max_units + 2 ^ 32 - (a.windows w).free_unit_count)
            ≡ owned_from live w 0 window_max_units)
  window_units w l =
      let (words, sum, resume) = own.consistent w l in
      (
        λ z. absurd (omega (arith, own.nonnull w l)),
        omega (
          arith,
          range_popcount-eq-tally (a.windows w).used words 0 window_max_units,
          tally_owned w l window_max_units 0 (omega arith),
        ),
      )

  add_used_lem :
      (ws : List ℕ) (sum : ℕ)
      → ((w : ℕ) → 1 ≤ count w ws → 1 ≤ listed a w)
      → u32 (add_used a.windows ws sum) ≡ u32 (sum + owned_in live ws)
  unfolding add_used owned_in
  add_used_lem [] sum sub = omega arith
  add_used_lem (w ∷ ws) sum sub =
      let (nonnull, units) = window_units w (sub w (ground arith)) in
      let next = u32 (sum + u32 (window_max_units + 2 ^ 32 - (a.windows w).free_unit_count)) in
      let t : (w == 0) ≡ false = elim (Bool-cases (w == 0)) [
        | inl e ↦ absurd (nonnull (ground arith))
        | inr e ↦ e
      ] in
      ap (λ (b : Bool). u32 (add_used a.windows ws (if b then sum else next))) t
      ∙ add_used_lem ws next (λ v h. sub v (ground arith))
      ∙ omega (arith, units)

  -- In a sound state GetMemoryUsedBytes is 16 bytes for each unit of the live allocations, as a
  -- 32-bit number.
  pub get_memory_used_bytes_lem : get_memory_used_bytes a ≡ u32 (total_units live * unit_size)
  unfolding get_memory_used_bytes
  get_memory_used_bytes_lem = omega (
    arith,
    add_used_lem a.full (add_used a.windows a.preferred 0) (λ w h. omega arith),
    add_used_lem a.preferred 0 (λ w h. omega arith),
    owned_everywhere live a own.recorded own.once,
  )
