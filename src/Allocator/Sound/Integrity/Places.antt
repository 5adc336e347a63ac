-- ===== src/Allocator/Sound/Integrity/Places.antt =====
-- The loops of IntegrityCheck over the places of a list of windows.
use siamese.Prelude.{ℕ, zero, suc, ◌+◌, ◌≤◌, ◌<◌, ◌≡◌, refl, ap, ◌∙◌, arith, inl, inr}
use siamese.Prelude.{List, [], ◌∷◌, Bool, true, false, not, ◌&&◌, ◌==◌, if◌then◌else◌, Bool-cases}
use siamese.Prelude.{and-true, not-true}
use siamese.Prelude.Lists.{length, get_or, count, count-get_or, place_of}
use siamese.Allocator.Window.{WindowHeader}
use siamese.Allocator.Report.{every, unique, absent, count_preallocated}

pub true_and : {x y : Bool} → x ≡ true → y ≡ true → (x && y) ≡ true
true_and {x = true} p q = q
true_and {x = false} p q = cc

pub not-false : (x : Bool) → x ≡ false → not x ≡ true
not-false false p = refl
not-false true p = cc

pub every_lem :
    (test : ℕ → Bool) (i n : ℕ)
    → ((j : ℕ) → i ≤ j → j < i + n → test j ≡ true)
    → every test i n ≡ true
unfolding every
every_lem test i zero all = refl
every_lem test i (suc n) all =
    true_and (all i (omega arith) (omega arith))
      (every_lem test (suc i) n (λ j lo h. all j (omega arith) (omega arith)))

pub every_each :
    (test : ℕ → Bool) (i n : ℕ)
    → every test i n ≡ true
    → (j : ℕ) → i ≤ j
    → j < i + n
    → test j ≡ true
unfolding every
every_each test i zero all j lo h = absurd (omega arith)
every_each test i (suc n) all j lo h =
    let (now, later) = and-true (test i) (every test (suc i) n) all in
    elim (Bool-cases (i == j)) [
      | inl t ↦ ap test (ground arith) ∙ now
      | inr t ↦ every_each test (suc i) n later j (ground arith) (omega arith)
    ]

-- Two places of a list that holds each element at most once.
once_apart :
    (xs : List ℕ)
    → ((v : ℕ) → count v xs ≤ 1)
    → (i j : ℕ) → i < length xs
    → j < length xs
    → (i == j) ≡ false
    → (get_or xs i 0 == get_or xs j 0) ≡ false
once_apart [] once i j hi hj t = absurd (omega arith)
once_apart (x ∷ xs) once zero zero hi hj t = absurd (ground arith)
once_apart (x ∷ xs) once zero (suc j) hi hj t =
    ground
      (arith, once x, count-get_or xs j, ap (λ (v : ℕ). count v xs) {x = x} {y = get_or xs j 0})
once_apart (x ∷ xs) once (suc i) zero hi hj t =
    ground
      (arith, once x, count-get_or xs i, ap (λ (v : ℕ). count v xs) {x = x} {y = get_or xs i 0})
once_apart (x ∷ xs) once (suc i) (suc j) hi hj t =
    once_apart xs (λ v. omega (arith, once v)) i j (omega arith) (omega arith) (ground arith)

-- A list without equal elements at two places holds each at most once.
apart_once :
    (xs : List ℕ)
    → ((i j : ℕ) → i < length xs → j < length xs → get_or xs i 0 ≡ get_or xs j 0 → i ≡ j)
    → (v : ℕ) → count v xs ≤ 1
apart_once [] apart v = omega arith
apart_once (x ∷ xs) apart v =
    let rest : count v xs ≤ 1 =
      apart_once xs
        (λ i j hi hj e. omega (arith, apart (suc i) (suc j) (omega arith) (omega arith) e)) v in
    elim (Bool-cases (x == v && not (count v xs == 0))) [
      | inl t ↦
          let (i, lt, e) = place_of v xs (ground arith) in
          absurd (omega (arith, apart 0 (suc i) (omega arith) (omega arith) (ground arith)))
      | inr t ↦ ground arith
    ]

but_itself : (x y : Bool) → (y ≡ false → x ≡ false) → not (x && not y) ≡ true
but_itself false y f = refl
but_itself true true f = refl
but_itself true false f = cc (f refl)

itself : (x y : Bool) → not (x && not y) ≡ true → x ≡ true → y ≡ true
itself true true e t = refl
itself true false e t = cc
itself false y e t = cc

pub unique_everywhere :
    (xs : List ℕ) (i : ℕ) → ((v : ℕ) → count v xs ≤ 1) → i < length xs → unique xs i ≡ true
unfolding unique
unique_everywhere xs i once h =
    every_lem (λ j. not (get_or xs i 0 == get_or xs j 0 && not (i == j))) 0 (length xs)
      (λ j lo k.
        but_itself (get_or xs i 0 == get_or xs j 0) (i == j)
          (λ t. once_apart xs once i j h (omega arith) t))

pub unique-once :
    (xs : List ℕ) → ((i : ℕ) → i < length xs → unique xs i ≡ true) → (v : ℕ) → count v xs ≤ 1
unfolding unique
unique-once xs all = apart_once xs (λ i j hi hj e.
    let test =
      every_each (λ k. not (get_or xs i 0 == get_or xs k 0 && not (i == k))) 0 (length xs)
        (all i hi) j (omega arith) (omega arith) in
    let same : (i == j) ≡ true =
      itself (get_or xs i 0 == get_or xs j 0) (i == j) test (ground arith) in
    ground arith)

pub absent_lem : (w : ℕ) (xs : List ℕ) → count w xs ≡ 0 → absent w xs ≡ true
unfolding absent
absent_lem w xs none_of =
    every_lem (λ j. not (w == get_or xs j 0)) 0 (length xs)
      (λ j lo h.
        not-false (w == get_or xs j 0) (
          ground
            (arith, count-get_or xs j, ap (λ (v : ℕ). count v xs) {x = w} {y = get_or xs j 0})))

pub absent-count : (w : ℕ) (xs : List ℕ) → absent w xs ≡ true → count w xs ≡ 0
unfolding absent
absent-count w xs all = elim (Bool-cases (count w xs == 0)) [
  | inl t ↦ ground arith
  | inr t ↦
      let (j, lt, e) = place_of w xs (ground arith) in
      let differs : (w == get_or xs j 0) ≡ false = not-true (w == get_or xs j 0) (
        every_each (λ k. not (w == get_or xs k 0)) 0 (length xs) all j (omega arith)
          (omega arith)) in
      absurd (ground arith)
]

-- How many windows of a list are marked as preallocated.
abbrev pub preallocated_of : (ℕ → WindowHeader) → List ℕ → ℕ
preallocated_of windows [] = 0
preallocated_of windows (w ∷ ws) =
    (if (windows w).preallocated then 1 else 0) + preallocated_of windows ws

pub count_preallocated_lem :
    (windows : ℕ → WindowHeader) (ws : List ℕ) (n : ℕ)
    → count_preallocated windows ws n ≡ n + preallocated_of windows ws
unfolding count_preallocated
count_preallocated_lem windows [] n = omega arith
count_preallocated_lem windows (w ∷ ws) n = elim (Bool-cases (windows w).preallocated) [
  | inl t ↦ count_preallocated_lem windows ws _ ∙ ground arith
  | inr t ↦ count_preallocated_lem windows ws _ ∙ ground arith
]
