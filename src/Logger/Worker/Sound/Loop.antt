-- ===== src/Logger/Worker/Sound/Loop.antt =====
-- The steps of the logger's thread keep what is sound.
use siamese.Prelude.{
  ℕ, zero, suc, ◌+◌, ◌^◌, ◌<◌, ◌≡◌, refl, sym, ap, ◌∙◌, arith, List, [], ◌∷◌, ◌++◌,
}
use siamese.Prelude.{true, false, not, ◌&&◌, ltb, if◌then◌else◌, if_cases, and-true, not-true}
use mathlib.Core.List.{append-nil, append_assoc}
use siamese.Logger.Level.{QueuedMessage}
use siamese.Logger.Worker.{
  Phase, absent, test, enter, waiting, logging, clearing, terminating, ended, Line, logged, lost,
  terminated, OutputWorker, flush, take_queue, is_empty, advance,
}
use siamese.Logger.Worker.Sound.{printed, reported, pending, unreported, flag, busy, gone, IsSound}

printed-append : (xs ys : List Line) → printed (xs ++ ys) ≡ printed xs ++ printed ys
printed-append [] ys = refl
printed-append (logged m ∷ xs) ys = ap (λ (ms : List QueuedMessage). m ∷ ms) (printed-append xs ys)
printed-append (lost n ∷ xs) ys = printed-append xs ys
printed-append (terminated ∷ xs) ys = printed-append xs ys

reported-append : (xs ys : List Line) → reported (xs ++ ys) ≡ reported xs + reported ys
reported-append [] ys = omega arith
reported-append (logged m ∷ xs) ys = reported-append xs ys
reported-append (lost n ∷ xs) ys = omega (arith, reported-append xs ys)
reported-append (terminated ∷ xs) ys = reported-append xs ys

-- A line that tells of no message leaves those printed as they were.
printed-append_none :
    (xs : List Line) (line : Line)
    → printed (line ∷ []) ≡ []
    → printed (xs ++ line ∷ []) ≡ printed xs
printed-append_none xs line none_told =
    printed-append xs (line ∷ [])
    ∙ ap (λ (ms : List QueuedMessage). printed xs ++ ms) none_told
    ∙ append-nil (printed xs)

-- The thread takes the queue when it holds nothing.
pub take_queue-IsSound :
    (s : OutputWorker)
    → IsSound s
    → gone s.phase ≡ false
    → busy s.phase ≡ false
    → pending s.phase ≡ []
    → unreported s.phase ≡ 0
    → flag s.phase ≡ false
    → IsSound (take_queue s)
take_queue-IsSound s ok here free held none_lost unasked = record {
  ordered =
      ok.ordered
      ∙ ap (λ (xs : List QueuedMessage). printed s.output ++ (xs ++ s.queue_public)) held
      ∙ ap (λ (xs : List QueuedMessage). printed s.output ++ xs)
          (sym (append-nil s.queue_public)
            ∙ ap (λ (xs : List QueuedMessage). s.queue_public ++ xs) (sym (ok.cleared free)));
  cleared = λ f. cc;
  bounded = ground (arith, ok.cleared free);
  counted = λ h. omega (arith, ok.counted h);
  awake = λ u. cc;
  answered = ground (arith, ok.answered);
  stop_answered = ground (arith, ok.stop_answered);
  alive = λ f. refl;
  flagged = ok.flagged;
  joined = ground (arith, ok.joined);
  over = ground (arith, ok.over);
}

-- The thread goes to sleep when nothing waits for it.
pub asleep_facts :
    (s : OutputWorker)
    → is_empty s.queue_public && not s.flush_requested && not s.terminated_flag ≡ true
    → (is_empty s.queue_public ≡ true) × (s.flush_requested ≡ false) × (s.terminated_flag ≡ false)
asleep_facts s t =
    let outer =
      and-true (is_empty s.queue_public && not s.flush_requested) (not s.terminated_flag) t in
    let inner = and-true (is_empty s.queue_public) (not s.flush_requested) outer.0 in
    (inner.0, not-true s.flush_requested inner.1, not-true s.terminated_flag outer.1)

sleep-IsSound :
    (s : OutputWorker)
    → IsSound s
    → gone s.phase ≡ false
    → busy s.phase ≡ false
    → pending s.phase ≡ []
    → unreported s.phase ≡ 0
    → flag s.phase ≡ false
    → is_empty s.queue_public ≡ true
    → s.flush_requested ≡ false
    → s.terminated_flag ≡ false
    → IsSound (record s { phase = waiting false })
sleep-IsSound s ok here free held none_lost unasked none_queued none_asked none_over = record {
  ordered =
      ok.ordered
      ∙ ap (λ (xs : List QueuedMessage). printed s.output ++ (xs ++ s.queue_public)) held;
  cleared = λ f. ok.cleared free;
  bounded = ok.bounded;
  counted = λ h. omega (arith, ok.counted h);
  awake = λ u z b. (none_queued, none_asked, none_over);
  answered = ground arith;
  stop_answered = ground arith;
  alive = λ f. refl;
  flagged = ok.flagged;
  joined = ground arith;
  over = ground arith;
}

-- The lines behind a batch.
abbrev with_overrun : List Line → ℕ → List Line
with_overrun lines overrun =
    if ltb 0 overrun && ltb overrun (2 ^ 31) then lines ++ lost overrun ∷ [] else lines

printed-overrun : (lines : List Line) (n : ℕ) → printed (with_overrun lines n) ≡ printed lines
printed-overrun lines n =
    if_cases (λ (xs : List Line). printed xs ≡ printed lines) (ltb 0 n && ltb n (2 ^ 31))
      (λ t. printed-append_none lines (lost n) refl) (λ t. refl)

reported-overrun :
    (lines : List Line) (n : ℕ) → n < 2 ^ 31 → reported (with_overrun lines n) ≡ reported lines + n
reported-overrun lines zero h = omega arith
reported-overrun lines (suc n) h =
    if_cases (λ (xs : List Line). reported xs ≡ reported lines + suc n)
      (ltb 0 (suc n) && ltb (suc n) (2 ^ 31))
      (λ t. omega (arith, reported-append lines (lost (suc n) ∷ []))) (λ t. ground arith)

pub advance-IsSound :
    (p : Phase) (s : OutputWorker) → s.phase ≡ p → IsSound s → IsSound (advance p s)
unfolding advance
advance-IsSound absent s e ok = ok
advance-IsSound test s e ok = ground arith
advance-IsSound enter s e ok =
    if_cases IsSound (is_empty s.queue_public && not s.flush_requested && not s.terminated_flag)
      (λ t.
        let facts = asleep_facts s t in
        sleep-IsSound s ok (ap gone e) (ap busy e) (ap pending e) (ap unreported e) (ap flag e)
          facts.0 facts.1 facts.2)
      (λ t.
        take_queue-IsSound s ok (ap gone e) (ap busy e) (ap pending e) (ap unreported e)
          (ap flag e))
advance-IsSound (waiting signalled) s e ok =
    if_cases IsSound signalled
      (λ t.
        take_queue-IsSound s ok (ap gone e) (ap busy e) (ap pending e) (ap unreported e)
          (ap flag e))
      (λ t. ok)
advance-IsSound (logging (m ∷ rest) overrun flush) s e ok = record {
  ordered =
      ok.ordered
      ∙ ap (λ (xs : List QueuedMessage). printed s.output ++ (xs ++ s.queue_public)) (ap pending e)
      ∙ sym (append_assoc (printed s.output) (m ∷ []) (rest ++ s.queue_public))
      ∙ ap (λ (xs : List QueuedMessage). xs ++ (rest ++ s.queue_public))
          (sym (printed-append s.output (logged m ∷ [])));
  cleared = λ f. cc;
  bounded = ok.bounded;
  counted =
      λ h. omega (arith, ok.counted h, ap unreported e, reported-append s.output (logged m ∷ []));
  awake = λ u. cc;
  answered = ground arith;
  stop_answered = ground arith;
  alive = λ f. refl;
  flagged = ok.flagged;
  joined = ground arith;
  over = ground arith;
}
advance-IsSound (logging [] overrun flush) s e ok = record {
  ordered =
      ok.ordered
      ∙ ap (λ (xs : List QueuedMessage). printed s.output ++ (xs ++ s.queue_public)) (ap pending e)
      ∙ ap (λ (xs : List QueuedMessage). xs ++ s.queue_public)
          (sym (printed-overrun s.output overrun));
  cleared = λ f. cc;
  bounded = ok.bounded;
  counted = λ h. omega (
    arith,
    ok.counted h,
    ap unreported e,
    reported-overrun s.output overrun (omega (arith, ok.counted h, ap unreported e)),
  );
  awake = λ u. cc;
  answered = ground arith;
  stop_answered = ground arith;
  alive = λ f. refl;
  flagged = ok.flagged;
  joined = ground arith;
  over = ground arith;
}
advance-IsSound (clearing flush) s e ok = ground arith
advance-IsSound terminating s e ok = record {
  ordered =
      ok.ordered
      ∙ ap (λ (xs : List QueuedMessage). printed s.output ++ (xs ++ s.queue_public)) (ap pending e)
      ∙ ap (λ (xs : List QueuedMessage). xs ++ s.queue_public)
          (sym (printed-append_none s.output terminated refl));
  cleared = ground arith;
  bounded = ok.bounded;
  counted =
      λ h. omega (arith, ok.counted h, ap unreported e, reported-append s.output (terminated ∷ []));
  awake = λ u. cc;
  answered = ground arith;
  stop_answered = ground arith;
  alive = ground arith;
  flagged = ok.flagged;
  joined = ground arith;
  over = ground arith;
}
advance-IsSound ended s e ok = ok
