-- ===== src/Logger/Worker/Progress/Flush.antt =====
-- The thread writes what was accepted, and wakes who sleeps in Flush.
use siamese.Prelude.{
  ℕ, ◌≡◌, refl, sym, ap, ◌∙◌, arith, List, [], ◌∷◌, ◌++◌, Bool, true, false, not, ◌&&◌, inl, inr,
  Bool-cases, if◌then◌else◌,
}
use mathlib.Core.Path.{subst}
use mathlib.Core.List.{append-nil}
use siamese.Logger.Level.{QueuedMessage}
use siamese.Logger.Worker.{
  Phase, absent, test, enter, waiting, logging, clearing, terminating, ended, OutputWorker, start,
  take_queue, is_empty, advance, work, Steps,
}
use siamese.Logger.Worker.Sound.{
  printed, pending, flag, unnotified, busy, gone, sleeps, is_some, IsSound,
}
use siamese.Logger.Worker.Sound.Reached.{work-IsSound, Steps-IsSound}
use siamese.Logger.Worker.Sound.Loop.{asleep_facts}
use siamese.Logger.Worker.Progress.{
  works, work_at, SameQueue, Eventually, now, later, logs, clears, takes,
}

is_empty-inv : (ms : List QueuedMessage) → is_empty ms ≡ true → ms ≡ []
is_empty-inv [] e = refl
is_empty-inv (m ∷ ms) e = cc

-- Everything is written, and nobody sleeps in Flush.
abbrev pub AllWritten : List QueuedMessage → OutputWorker → Type 0
AllWritten ms t = (printed t.output ≡ ms) × (t.flushers ≡ []) × (sleeps t.stopper ≡ false)

is_some-inv : (xs : List ℕ) → is_some xs ≡ false → xs ≡ []
is_some-inv [] e = refl
is_some-inv (x ∷ xs) e = cc

quiet :
    (s : OutputWorker)
    → IsSound s
    → pending s.phase ≡ []
    → flag s.phase ≡ false
    → s.queue_public ≡ []
    → s.flush_requested ≡ false
    → s.terminated_flag ≡ false
    → AllWritten s.accepted s
quiet s ok held unasked none_queued none_asked none_over = (
  sym (
      ok.ordered
      ∙ ap (λ (xs : List QueuedMessage). printed s.output ++ (xs ++ s.queue_public)) held
      ∙ ap (λ (xs : List QueuedMessage). printed s.output ++ xs) none_queued
      ∙ append-nil (printed s.output)),
  is_some-inv s.flushers (ground arith),
  ground arith,
)

-- Behind a batch that was taken nothing is left.
quiet_after :
    (s t : OutputWorker) (ms : List QueuedMessage)
    → t.phase ≡ test
    → IsSound t
    → SameQueue (take_queue s) t
    → s.accepted ≡ ms
    → s.queue_private ≡ []
    → s.terminated_flag ≡ false
    → AllWritten ms t
quiet_after s t ms e ok same a none_private none_over =
    subst (λ (xs : List QueuedMessage). AllWritten xs t) (same.same_accepted ∙ a)
      (quiet t ok (ap pending e) (ap flag e) (same.same_queue ∙ none_private) same.same_request
        (same.same_flag ∙ none_over))

module _ (ms : List QueuedMessage) where
  writes_taken :
      (s : OutputWorker)
      → work s ≡ take_queue s
      → IsSound s
      → s.accepted ≡ ms
      → s.terminated_flag ≡ false
      → busy s.phase ≡ false
      → Eventually (AllWritten ms) s
  writes_taken s w ok a none_over free = takes (AllWritten ms) s w ok (λ t e ok' same.
      now (AllWritten ms) t (quiet_after s t ms e ok' same a (ok.cleared free) none_over))

  writes_nothing :
      (s : OutputWorker)
      → IsSound s
      → s.accepted ≡ ms
      → pending s.phase ≡ []
      → flag s.phase ≡ false
      → is_empty s.queue_public ≡ true
      → s.flush_requested ≡ false
      → s.terminated_flag ≡ false
      → Eventually (AllWritten ms) s
  writes_nothing s ok a held unasked none_queued none_asked none_over = now (AllWritten ms) s (
      subst (λ (xs : List QueuedMessage). AllWritten xs s) a
        (quiet s ok held unasked (is_empty-inv s.queue_public none_queued) none_asked none_over))

  writes_entered :
      (s : OutputWorker)
      → s.phase ≡ enter
      → IsSound s
      → s.accepted ≡ ms
      → s.terminated_flag ≡ false
      → Eventually (AllWritten ms) s
  unfolding advance
  writes_entered s e ok a none_over =
      let asleep = is_empty s.queue_public && not s.flush_requested && not s.terminated_flag in
      let stepped = λ (b : Bool). if b then record s { phase = waiting false } else take_queue s in
      elim (Bool-cases asleep) [
        | inl t ↦
            let facts = asleep_facts s t in
            writes_nothing s ok a (ap pending e) (ap flag e) facts.0 facts.1 facts.2
        | inr f ↦ writes_taken s (work_at enter s e ∙ ap stepped f) ok a none_over (ap busy e)
      ]

  writes_tested :
      (s : OutputWorker)
      → s.phase ≡ test
      → IsSound s
      → s.accepted ≡ ms
      → s.terminated_flag ≡ false
      → Eventually (AllWritten ms) s
  unfolding advance
  writes_tested s e ok a none_over =
      let w = work_at test s e in
      later (AllWritten ms) s (
        writes_entered (work s)
          (ap (λ (t : OutputWorker). t.phase) w
            ∙ ap (λ (b : Bool). if b then terminating else enter) none_over)
          (work-IsSound s ok) (ap (λ (t : OutputWorker). t.accepted) w ∙ a)
          (ap (λ (t : OutputWorker). t.terminated_flag) w ∙ none_over))

  writes_next :
      (s : OutputWorker)
      → s.accepted ≡ ms
      → s.terminated_flag ≡ false
      → (t : OutputWorker) → t.phase ≡ test
      → IsSound t
      → SameQueue s t
      → Eventually (AllWritten ms) t
  writes_next s a none_over t e ok same =
      writes_tested t e ok (same.same_accepted ∙ a) (same.same_flag ∙ none_over)

  writes_from :
      (p : Phase) (s : OutputWorker)
      → s.phase ≡ p
      → IsSound s
      → s.accepted ≡ ms
      → s.terminated_flag ≡ false
      → s.writers ≡ 0
      → Eventually (AllWritten ms) s
  unfolding advance
  writes_from test s e ok a none_over still = writes_tested s e ok a none_over
  writes_from enter s e ok a none_over still = writes_entered s e ok a none_over
  writes_from (waiting true) s e ok a none_over still =
      writes_taken s (work_at (waiting true) s e) ok a none_over (ap busy e)
  writes_from (waiting false) s e ok a none_over still =
      let facts = ok.awake (ap unnotified e) still (ground arith) in
      writes_nothing s ok a (ap pending e) (ap flag e) facts.0 facts.1 facts.2
  writes_from (logging rest overrun flush) s e ok a none_over still =
      logs (AllWritten ms) rest overrun flush s e ok (writes_next s a none_over)
  writes_from (clearing flush) s e ok a none_over still =
      clears (AllWritten ms) s flush e ok (writes_next s a none_over)
  writes_from terminating s e ok a none_over still = cc (ok.alive none_over, ap gone e)
  writes_from ended s e ok a none_over still = cc (ok.alive none_over, ap gone e)
  writes_from absent s e ok a none_over still = cc (ok.alive none_over, ap gone e)

-- From every state that the threads of the logger reach in which Terminated is not set and no writer
-- is about to notify the thread, the thread by its own steps gets to a state in which every message
-- that the queue had accepted is written, in order, and in which nobody sleeps in Flush.
pub flush_completes :
    {s : OutputWorker}
    → Steps start s
    → s.terminated_flag ≡ false
    → s.writers ≡ 0
    → (n : ℕ) × (printed (works n s).output ≡ s.accepted)
      × ((works n s).flushers ≡ [])
      × (sleeps (works n s).stopper ≡ false)
flush_completes {s = s} steps none_over still =
    let run = writes_from s.accepted s.phase s refl (Steps-IsSound steps) refl none_over still in
    (run.0, run.1.0, run.1.1, run.1.2)
