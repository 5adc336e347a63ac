-- ===== src/Allocator/Sound/Moves.antt =====
-- Moving windows from one list to the other changes no ownership.
use siamese.Prelude.{ℕ, zero, suc, ◌+◌, ◌-◌, ◌≤◌, ◌<◌, ◌≡◌, refl, sym, ap, ◌∙◌, arith}
use siamese.Prelude.{List, [], ◌∷◌, ◌++◌, false, ◌==◌, if◌then◌else◌, Bool-cases, inl, inr}
use mathlib.Core.Path.{subst}
use native.Mathlib.Decide.{dec_lt}
use siamese.Prelude.Int.{ℤ, pos}
use siamese.Prelude.Lists.{
  length, get_or, take, put, count, count-append, count_last, count-get_or, length-take,
  length-append, get_or-append, get_or-take, take-take, take-all, put_cases,
}
use siamese.Allocator.Window.{WindowHeader}
use siamese.Allocator.State.{Allocator, move_windows, move_last_few_windows_to_full}
use siamese.Allocator.Sound.{Region, listed, IsOwned, IsIndexed}
use siamese.Allocator.Sound.Same.{SameUse, SameUse-trans, IsOwned-same}

-- The last preferred window moved to the end of the full list.
abbrev pub move_last : Allocator → Allocator
move_last a =
    let window = get_or a.preferred (length a.preferred - 1) 0 in
    record a {
      preferred = take (length a.preferred - 1) a.preferred;
      full = a.full ++ window ∷ [];
      windows =
          put a.windows window
            (record (a.windows window) { full_list_index = pos (length a.full) });
    }

-- A change of the index of one window.
pub reindexed_same :
    (f : ℕ → WindowHeader) (v : ℕ) (i : ℤ) (w : ℕ)
    → ((put f v (record (f v) { full_list_index = i }) w).used ≡ (f w).used)
      × ((put f v (record (f v) { full_list_index = i }) w).free_unit_count ≡ (f w).free_unit_count)
      × ((put f v (record (f v) { full_list_index = i }) w).resume_scan_offset
          ≡ (f w).resume_scan_offset)
reindexed_same f v i w =
    put_cases
      (λ h.
        (h.used ≡ (f w).used)
        × (h.free_unit_count ≡ (f w).free_unit_count)
        × (h.resume_scan_offset ≡ (f w).resume_scan_offset))
      f v (record (f v) { full_list_index = i }) w
      (λ e. (
        ap (λ (x : ℕ). (f x).used) (sym e),
        ap (λ (x : ℕ). (f x).free_unit_count) (sym e),
        ap (λ (x : ℕ). (f x).resume_scan_offset) (sym e),
      ))
      (λ t. (refl, refl, refl))

module _ (a : Allocator) (some_left : 1 ≤ length a.preferred) where
  abbrev last_place : ℕ
  last_place = length a.preferred - 1

  abbrev last : ℕ
  last = get_or a.preferred last_place 0

  last_listed :
      (w : ℕ)
      → count w a.preferred ≡ count w (take last_place a.preferred) + (if last == w then 1 else 0)
  last_listed w = count_last w last_place a.preferred (omega arith)

  pub move_last-SameUse : SameUse a (move_last a)
  move_last-SameUse = record {
    listed_same = λ w. omega (arith, last_listed w, count-append w a.full (last ∷ []));
    used_same = λ w. (reindexed_same a.windows last (pos (length a.full)) w).0;
    free_same = λ w. (reindexed_same a.windows last (pos (length a.full)) w).1;
    resume_same = λ w. omega (arith, (reindexed_same a.windows last (pos (length a.full)) w).2);
    regions_same = λ r. refl;
    system_same = refl;
  }

  module _ (once : (w : ℕ) → listed a w ≤ 1) (ok : IsIndexed a) where
    last_counted : 1 ≤ count last a.preferred
    last_counted = count-get_or a.preferred last_place (omega arith)

    -- Another window than the last one keeps its index.
    other_index :
        (w : ℕ)
        → (w == last) ≡ false
        → ((move_last a).windows w).full_list_index ≡ (a.windows w).full_list_index
    other_index w t =
        put_cases (λ h. h.full_list_index ≡ (a.windows w).full_list_index) a.windows last
          (record (a.windows last) { full_list_index = pos (length a.full) }) w
          (λ e. absurd (ground arith)) (λ u. refl)

    last_index : ((move_last a).windows last).full_list_index ≡ pos (length a.full)
    last_index =
        put_cases (λ h. h.full_list_index ≡ pos (length a.full)) a.windows last
          (record (a.windows last) { full_list_index = pos (length a.full) }) last (λ e. refl)
          (λ u. absurd (ground arith))

    full_place : (i : ℕ) → i < length a.full → (get_or a.full i 0 == last) ≡ false
    full_place i h = ground (
      arith,
      once last,
      last_counted,
      count-get_or a.full i,
      ap (λ (x : ℕ). count x a.full) {x = get_or a.full i 0} {y = last},
    )

    pub move_last-IsIndexed : IsIndexed (move_last a)
    move_last-IsIndexed = record {
      outside = λ w l. elim (Bool-cases (w == last)) [
        | inl t ↦ absurd (ground (arith, once w, last_listed w))
        | inr t ↦ other_index w t ∙ ok.outside w (omega (arith, last_listed w))
      ];
      place = λ i h. elim (dec_lt i (length a.full)) [
        | yes l ↦
            let e : get_or (move_last a).full i 0 ≡ get_or a.full i 0 =
              get_or-append a.full (last ∷ []) i ∙ ground arith in
            ap (λ (x : ℕ). ((move_last a).windows x).full_list_index) e
            ∙ other_index (get_or a.full i 0) (full_place i l)
            ∙ ok.place i l
        | no l ↦
            let q : i ≡ length a.full = omega (arith, length-append a.full (last ∷ [])) in
            let z : i - length a.full ≡ zero = omega arith in
            let e : get_or (move_last a).full i 0 ≡ last =
              get_or-append a.full (last ∷ []) i
              ∙ ground (arith, ap (λ (x : ℕ). get_or (last ∷ []) x 0) z) in
            ap (λ (x : ℕ). ((move_last a).windows x).full_list_index) e
            ∙ last_index
            ∙ ap pos (sym q)
      ];
    }

-- The last preferred windows, one after the other.
unfoldable pub moves : ℕ → Allocator → Allocator
moves zero a = a
moves (suc n) a = moves n (move_last a)

-- The loop reads the preferred list, which it does not change: after i rounds it stands for the
-- state whose list is shorter by i.
abbrev shortened : ℕ → Allocator → Allocator
shortened i a = record a { preferred = take (length a.preferred - i) a.preferred }

-- One round of the loop.
abbrev round : ℕ → ℕ → ℕ → Allocator → Allocator
round full_count preferred_count i a =
    let window = get_or a.preferred (preferred_count - 1 - i) 0 in
    record a {
      full = a.full ++ window ∷ [];
      windows =
          put a.windows window
            (record (a.windows window) { full_list_index = pos (full_count + i) });
    }

round-move_last :
    (fc i : ℕ) (a : Allocator)
    → i < length a.preferred
    → length a.full ≡ fc + i
    → move_last (shortened i a) ≡ shortened (suc i) (round fc (length a.preferred) i a)
round-move_last fc i a h e =
    let p : List ℕ = take (length a.preferred - i) a.preferred in
    let len : length p - 1 ≡ length a.preferred - 1 - i =
      omega (arith, length-take (length a.preferred - i) a.preferred (omega arith)) in
    let short : length a.preferred - 1 - i ≡ length a.preferred - suc i = omega arith in
    let build = λ (xs : List ℕ) (w k : ℕ). record a {
      preferred = xs;
      full = a.full ++ w ∷ [];
      windows = put a.windows w (record (a.windows w) { full_list_index = pos k });
    } in
    let rest : take (length p - 1) p ≡ take (length a.preferred - suc i) a.preferred =
      ap (λ (k : ℕ). take k p) (len ∙ short)
      ∙ take-take (length a.preferred - suc i) (length a.preferred - i) a.preferred (omega arith) in
    let window : get_or p (length p - 1) 0 ≡ get_or a.preferred (length a.preferred - 1 - i) 0 =
      ap (λ (k : ℕ). get_or p k 0) len
      ∙ get_or-take (length a.preferred - i) (length a.preferred - 1 - i) a.preferred 0
          (omega arith) in
    ap (λ (xs : List ℕ). build xs (get_or p (length p - 1) 0) (length a.full)) rest
    ∙ ap (λ (w : ℕ). build (take (length a.preferred - suc i) a.preferred) w (length a.full)) window
    ∙ ap
        (build (take (length a.preferred - suc i) a.preferred)
          (get_or a.preferred (length a.preferred - 1 - i) 0))
        e

move_windows-eq-moves :
    (fc i n : ℕ) (a : Allocator)
    → i + n ≤ length a.preferred
    → length a.full ≡ fc + i
    → shortened (i + n) (move_windows fc (length a.preferred) i n a) ≡ moves n (shortened i a)
unfolding move_windows moves
move_windows-eq-moves fc i zero a h e =
    ap (λ (k : ℕ). shortened k a) (let z : i + 0 ≡ i = omega arith in z)
move_windows-eq-moves fc i (suc n) a h e =
    let b : Allocator = round fc (length a.preferred) i a in
    let k : i + suc n ≡ suc i + n = omega arith in
    let longer : length b.full ≡ fc + suc i =
      omega
        (arith, length-append a.full (get_or a.preferred (length a.preferred - 1 - i) 0 ∷ [])) in
    ap (λ (x : ℕ). shortened x (move_windows fc (length a.preferred) (suc i) n b)) k
    ∙ move_windows-eq-moves fc (suc i) n b (omega arith) longer
    ∙ ap (moves n) (sym (round-move_last fc i a (omega arith) e))

-- The preferred list is kept through the loop.
move_windows-preferred :
    (fc pc i n : ℕ) (a : Allocator) → (move_windows fc pc i n a).preferred ≡ a.preferred
unfolding move_windows
move_windows-preferred fc pc i zero a = refl
move_windows-preferred fc pc i (suc n) a = move_windows-preferred fc pc (suc i) n (round fc pc i a)

pub move_last_few-eq-moves :
    (n : ℕ) (a : Allocator) → n ≤ length a.preferred → move_last_few_windows_to_full n a ≡ moves n a
unfolding move_last_few_windows_to_full
move_last_few-eq-moves n a h =
    let moved : Allocator = move_windows (length a.full) (length a.preferred) 0 n a in
    let z : 0 + n ≡ n = omega arith in
    let keep = move_windows-preferred (length a.full) (length a.preferred) 0 n a in
    ap (λ (xs : List ℕ). record moved { preferred = take (length xs - n) moved.preferred })
      (sym keep)
    ∙ ap (λ (k : ℕ). shortened k moved) (sym z)
    ∙ move_windows-eq-moves (length a.full) 0 n a (omega arith) (omega arith)
    ∙ ap (λ (xs : List ℕ). moves n (record a { preferred = xs }))
        (take-all (length a.preferred - 0) a.preferred (omega arith))

pub IsSound-moves :
    (n : ℕ) (a : Allocator)
    → n ≤ length a.preferred
    → ((w : ℕ) → listed a w ≤ 1)
    → IsIndexed a
    → SameUse a (moves n a) × IsIndexed (moves n a)
unfolding moves
IsSound-moves zero a h once ok = (
  record {
    listed_same = λ w. refl;
    used_same = λ w. refl;
    free_same = λ w. refl;
    resume_same = λ w. omega arith;
    regions_same = λ r. refl;
    system_same = refl;
  },
  ok,
)
IsSound-moves (suc n) a h once ok =
    let first = move_last-SameUse a (omega arith) in
    let left : n ≤ length (move_last a).preferred =
      omega (arith, length-take (length a.preferred - 1) a.preferred (omega arith)) in
    let (same, index) =
      IsSound-moves n (move_last a) left (λ w. omega (arith, first.listed_same w, once w))
        (move_last-IsIndexed a (omega arith) once ok) in
    (SameUse-trans a (move_last a) (moves n (move_last a)) first same, index)

-- moveLastFewWindowsToFull changes no ownership, and keeps each window's knowledge of its list.
pub move_last_few_lem :
    (n : ℕ) (a : Allocator) (live : List Region)
    → n ≤ length a.preferred
    → IsOwned live a
    → IsIndexed a
    → SameUse a (move_last_few_windows_to_full n a)
      × IsOwned live (move_last_few_windows_to_full n a)
      × IsIndexed (move_last_few_windows_to_full n a)
move_last_few_lem n a live h own ok =
    let (same, index) = IsSound-moves n a h own.once ok in
    subst (λ (b : Allocator). SameUse a b × IsOwned live b × IsIndexed b)
      (sym (move_last_few-eq-moves n a h)) (same, IsOwned-same a (moves n a) same live own, index)
