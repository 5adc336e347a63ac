-- ===== src/Allocator/Sound/Same.antt =====
-- Two states that differ only in which list their windows stand in: ownership is the same.
use siamese.Prelude.{ℕ, ◌≤◌, ◌≡◌, sym, ap, ◌∙◌, arith}
use siamese.Prelude.{List, [], ◌∷◌, if◌then◌else◌}
use mathlib.Core.Path.{subst}
use siamese.Allocator.System.{System}
use siamese.Allocator.System.Blocks.{IsInside}
use siamese.Allocator.BitSet.{CustomBitSet, check, range_popcount}
use siamese.Allocator.BitSet.Words.{IsWords}
use siamese.Allocator.Window.{window_max_units}
use siamese.Allocator.Window.Consistent.{IsConsistent}
use siamese.Allocator.State.{Allocator, AllocationHeader, window_size_bytes, region_address}
use siamese.Allocator.Sound.{Region, listed, AllRegions, IsRecorded, IsOwned}

-- Two states with the same windows listed, and the same units in use.
pub record SameUse (a b : Allocator) : Type 0 where
  pub listed_same : (w : ℕ) → listed b w ≡ listed a w
  pub used_same : (w : ℕ) → (b.windows w).used ≡ (a.windows w).used
  pub free_same : (w : ℕ) → (b.windows w).free_unit_count ≡ (a.windows w).free_unit_count
  pub resume_same : (w : ℕ) → (b.windows w).resume_scan_offset ≤ (a.windows w).resume_scan_offset
  pub regions_same : (r : ℕ) → b.regions r ≡ a.regions r
  pub system_same : b.system ≡ a.system

pub SameUse-trans : (a b c : Allocator) → SameUse a b → SameUse b c → SameUse a c
SameUse-trans a b c p q = record {
  listed_same = λ w. q.listed_same w ∙ p.listed_same w;
  used_same = λ w. q.used_same w ∙ p.used_same w;
  free_same = λ w. q.free_same w ∙ p.free_same w;
  resume_same = λ w. omega (arith, q.resume_same w, p.resume_same w);
  regions_same = λ r. q.regions_same r ∙ p.regions_same r;
  system_same = q.system_same ∙ p.system_same;
}

module _ (a b : Allocator) (same : SameUse a b) where
  windows_kept : (w : ℕ) → 1 ≤ listed b w → 1 ≤ listed a w
  windows_kept w h = omega (arith, same.listed_same w)

  IsConsistent-same : (w : ℕ) → IsConsistent (a.windows w) → IsConsistent (b.windows w)
  IsConsistent-same w ok = (
    subst IsWords (sym (same.used_same w)) ok.0,
    omega (
      arith,
      ok.1,
      ap (λ (u : CustomBitSet). range_popcount u 0 window_max_units) (same.used_same w),
      same.free_same w,
    ),
    omega (arith, ok.2, same.resume_same w),
  )

  IsRecorded-same : (r : Region) → IsRecorded a r → IsRecorded b r
  IsRecorded-same r (l, two, fit, h, u) =
      let e = same.regions_same (region_address r.window r.start) in
      (
        omega (arith, same.listed_same r.window),
        two,
        fit,
        ap (λ (x : AllocationHeader). x.header) e ∙ h,
        ap (λ (x : AllocationHeader). x.used_units) e ∙ u,
      )

  AllRegions-same :
      (live : List Region) → AllRegions (IsRecorded a) live → AllRegions (IsRecorded b) live
  AllRegions-same [] all = tt
  AllRegions-same (r ∷ rs) (p, all) = (IsRecorded-same r p, AllRegions-same rs all)

  pub IsOwned-same : (live : List Region) → IsOwned live a → IsOwned live b
  IsOwned-same live ok = record {
    once = λ w. omega (arith, same.listed_same w, ok.once w);
    consistent = λ w l. IsConsistent-same w (ok.consistent w (windows_kept w l));
    owned = λ w j l h.
        ok.owned w j (windows_kept w l) h
        ∙ ap (λ (u : CustomBitSet). if check u j then 1 else 0) (sym (same.used_same w));
    nonnull = λ w l. ok.nonnull w (windows_kept w l);
    inside = λ w l.
        subst (λ (s : System). IsInside w window_size_bytes (s.blocks)) (sym same.system_same)
          (ok.inside w (windows_kept w l));
    apart = λ v w l k h. ok.apart v w (windows_kept v l) (windows_kept w k) h;
    recorded = AllRegions-same live ok.recorded;
  }
