-- ===== src/Tools/WindowedMinMax/Laws.antt =====
-- The samples stay sorted, the best one is no worse than the newest and no older than the window.
use siamese.Prelude.{ℕ, ◌/◌, ◌≡◌, arith, true, false, not, ◌&&◌}
use siamese.Prelude.{leb, ◌==◌, if_cases}
use siamese.Tools.WindowedMinMax.{
  Comparison, min_compare, max_compare, compare_values, Sample, Samples, timeout_expired, reset,
  insert, expire, update, get_best, is_valid,
}

abbrev pub IsNoWorse : Comparison → ℕ → ℕ → Type 0
IsNoWorse c x y = compare_values c x y ≡ true

abbrev pub IsSorted : Comparison → Samples → Type 0
IsSorted c w = IsNoWorse c w.first.value w.second.value × IsNoWorse c w.second.value w.third.value

-- What an update leaves: sorted samples, a best value no worse than the newest, of an age within
-- the window.
abbrev pub IsUpdated : Comparison → ℕ → ℕ → ℕ → Samples → Type 0
IsUpdated c value now window w =
    IsNoWorse c w.first.value w.second.value
    × IsNoWorse c w.second.value w.third.value
    × IsNoWorse c (get_best w) value
    × (timeout_expired w.first now window ≡ false)

module _ (v t window : ℕ) where
  abbrev newest : Sample
  newest = record { value = v; timestamp = t }

  reset-IsUpdated : (c : Comparison) → IsUpdated c v t window (reset newest)
  unfolding reset compare_values get_best
  reset-IsUpdated min_compare = (ground arith, ground arith, ground arith, ground arith)
  reset-IsUpdated max_compare = (ground arith, ground arith, ground arith, ground arith)

  -- After the insertion: the third sample is in the window and no worse than the newest.
  abbrev IsInserted : Comparison → Samples → Type 0
  IsInserted c w =
      IsNoWorse c w.first.value w.second.value
      × IsNoWorse c w.second.value w.third.value
      × IsNoWorse c w.third.value v
      × (timeout_expired w.third t window ≡ false)

  insert-IsInserted :
      (c : Comparison) (w : Samples)
      → IsSorted c w
      → compare_values c v w.first.value ≡ false
      → timeout_expired w.third t window ≡ false
      → IsInserted c (insert c newest w)
  unfolding insert compare_values
  insert-IsInserted min_compare w h b old =
      if_cases (IsInserted min_compare) (leb v w.second.value)
        (λ x. (ground arith, ground arith, ground arith, ground arith))
        (λ x.
          if_cases (IsInserted min_compare) (leb v w.third.value)
            (λ y. (h.0, ground arith, ground arith, ground arith))
            (λ y. (h.0, h.1, ground arith, old)))
  insert-IsInserted max_compare w h b old =
      if_cases (IsInserted max_compare) (leb w.second.value v)
        (λ x. (ground arith, ground arith, ground arith, ground arith))
        (λ x.
          if_cases (IsInserted max_compare) (leb w.third.value v)
            (λ y. (h.0, ground arith, ground arith, ground arith))
            (λ y. (h.0, h.1, ground arith, old)))

  IsNoWorse-trans :
      (c : Comparison) (x y z : ℕ) → IsNoWorse c x y → IsNoWorse c y z → IsNoWorse c x z
  unfolding compare_values
  IsNoWorse-trans min_compare x y z h k = ground arith
  IsNoWorse-trans max_compare x y z h k = ground arith

  IsNoWorse-refl : (c : Comparison) (x : ℕ) → IsNoWorse c x x
  unfolding compare_values
  IsNoWorse-refl min_compare x = ground arith
  IsNoWorse-refl max_compare x = ground arith

  expire-IsUpdated :
      (c : Comparison) (w : Samples)
      → IsInserted c w
      → IsUpdated c v t window (expire newest window w)
  unfolding expire get_best
  expire-IsUpdated c w (h1, h2, h3, young) =
      let k2 = IsNoWorse-trans c w.second.value w.third.value v h2 h3 in
      let k1 = IsNoWorse-trans c w.first.value w.second.value v h1 k2 in
      let same = IsNoWorse-refl c v in
      let P = IsUpdated c v t window in
      if_cases P (timeout_expired w.first t window)
        (λ x.
          if_cases P (timeout_expired w.second t window) (λ y. (h3, same, h3, young))
            (λ y. (h2, h3, k2, y)))
        (λ x.
          if_cases P (w.second.value == w.first.value && timeout_expired w.second t (window / 4))
            (λ y. (k1, same, k1, x))
            (λ y.
              if_cases P (w.third.value == w.second.value && timeout_expired w.third t (window / 2))
                (λ z. (h1, k2, k1, x)) (λ z. (h1, h2, k1, x))))

-- An update of sorted samples leaves them sorted, the best value no worse than the new one, and
-- the best sample not older than the window.
pub update-IsUpdated :
    (c : Comparison) (v t window : ℕ) (w : Samples)
    → IsSorted c w
    → IsUpdated c v t window (update c v t window w)
unfolding update
update-IsUpdated c v t window w h =
    let P = IsUpdated c v t window in
    let fresh = reset-IsUpdated v t window c in
    if_cases P (not (is_valid w)) (λ x. fresh)
      (λ x.
        if_cases P (compare_values c v w.first.value) (λ y. fresh)
          (λ y.
            if_cases P (timeout_expired w.third t window) (λ z. fresh)
              (λ z.
                expire-IsUpdated v t window c (insert c (record { value = v; timestamp = t }) w)
                  (insert-IsInserted v t window c w h y z))))
