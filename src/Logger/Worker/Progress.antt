-- ===== src/Logger/Worker/Progress.antt =====
-- Where the logger's thread gets by its own steps.
pub mod Flush
pub mod Ending
use siamese.Prelude.{
  ℕ, zero, suc, ◌+◌, ◌≡◌, refl, sym, ap, ◌∙◌, arith, List, [], ◌∷◌, ◌++◌, Bool, true, false, not,
  ◌&&◌, if◌then◌else◌, if_cases,
}
use mathlib.Core.Path.{subst}
use mathlib.Core.List.{append-nil}
use siamese.Logger.Level.{QueuedMessage}
use siamese.Logger.Worker.{
  Phase, absent, test, enter, waiting, logging, clearing, terminating, ended, OutputWorker, start,
  take_queue, is_empty, advance, work, Steps,
}
use siamese.Logger.Worker.Sound.{
  printed, pending, flag, unnotified, gone, about_to_notify, closing, sleeps, is_some, IsSound,
}
use siamese.Logger.Worker.Sound.Reached.{work-IsSound, Steps-IsSound}

-- The thread's next steps, alone.
abbrev pub works : ℕ → OutputWorker → OutputWorker
works zero s = s
works (suc n) s = works n (work s)

pub work_at : (p : Phase) (s : OutputWorker) → s.phase ≡ p → work s ≡ advance p s
unfolding work
work_at p s e = ap (λ (q : Phase). advance q s) e

-- The queue and the flags are as they were.
pub record SameQueue (s t : OutputWorker) : Type 0 where
  pub same_queue : t.queue_public ≡ s.queue_public
  pub same_request : t.flush_requested ≡ s.flush_requested
  pub same_flag : t.terminated_flag ≡ s.terminated_flag
  pub same_accepted : t.accepted ≡ s.accepted

SameQueue-trans : {s t u : OutputWorker} → SameQueue s t → SameQueue t u → SameQueue s u
SameQueue-trans h k = record {
  same_queue = k.same_queue ∙ h.same_queue;
  same_request = k.same_request ∙ h.same_request;
  same_flag = k.same_flag ∙ h.same_flag;
  same_accepted = k.same_accepted ∙ h.same_accepted;
}

abbrev writing : Phase → Bool
writing (logging rest overrun flush) = true
writing (clearing flush) = true
writing absent = false
writing test = false
writing enter = false
writing (waiting signalled) = false
writing terminating = false
writing ended = false

advance-SameQueue : (p : Phase) (s : OutputWorker) → writing p ≡ true → SameQueue s (advance p s)
unfolding advance
advance-SameQueue (logging [] overrun flush) s h = record {
  same_queue = refl;
  same_request = refl;
  same_flag = refl;
  same_accepted = refl;
}
advance-SameQueue (logging (m ∷ rest) overrun flush) s h = record {
  same_queue = refl;
  same_request = refl;
  same_flag = refl;
  same_accepted = refl;
}
advance-SameQueue (clearing flush) s h = record {
  same_queue = refl;
  same_request = refl;
  same_flag = refl;
  same_accepted = refl;
}
advance-SameQueue absent s h = cc
advance-SameQueue test s h = cc
advance-SameQueue enter s h = cc
advance-SameQueue (waiting signalled) s h = cc
advance-SameQueue terminating s h = cc
advance-SameQueue ended s h = cc

work-SameQueue : (s : OutputWorker) → writing s.phase ≡ true → SameQueue s (work s)
unfolding work
work-SameQueue s h = advance-SameQueue s.phase s h

module _ (P : OutputWorker → Type 0) where
  abbrev pub Eventually : OutputWorker → Type 0
  Eventually s = (n : ℕ) × P (works n s)

  pub now : (s : OutputWorker) → P s → Eventually s
  now s h = (0, h)

  pub later : (s : OutputWorker) → Eventually (work s) → Eventually s
  later s h = (suc h.0, h.1)

  -- It holds when the thread is next at the test.
  abbrev pub AtTest : OutputWorker → Type 0
  AtTest s = (t : OutputWorker) → t.phase ≡ test → IsSound t → SameQueue s t → Eventually t

  work_first : (s : OutputWorker) → writing s.phase ≡ true → AtTest s → AtTest (work s)
  work_first s h k t e ok same = k t e ok (SameQueue-trans (work-SameQueue s h) same)

  pub clears :
      (s : OutputWorker) (flush : Bool)
      → s.phase ≡ clearing flush
      → IsSound s
      → AtTest s
      → Eventually s
  unfolding advance
  clears s flush e ok k = later s (
      k (work s) (ap (λ (t : OutputWorker). t.phase) (work_at (clearing flush) s e))
        (work-IsSound s ok) (work-SameQueue s (ap writing e)))

  pub logs :
      (rest : List QueuedMessage) (overrun : ℕ) (flush : Bool) (s : OutputWorker)
      → s.phase ≡ logging rest overrun flush
      → IsSound s
      → AtTest s
      → Eventually s
  unfolding advance
  logs [] overrun flush s e ok k = later s (
      clears (work s) flush
        (ap (λ (t : OutputWorker). t.phase) (work_at (logging [] overrun flush) s e))
        (work-IsSound s ok) (work_first s (ap writing e) k))
  logs (m ∷ rest) overrun flush s e ok k = later s (
      logs rest overrun flush (work s)
        (ap (λ (t : OutputWorker). t.phase) (work_at (logging (m ∷ rest) overrun flush) s e))
        (work-IsSound s ok) (work_first s (ap writing e) k))

  -- The thread takes the queue, writes it, and is at the test.
  pub takes :
      (s : OutputWorker)
      → work s ≡ take_queue s
      → IsSound s
      → ((t : OutputWorker)
          → t.phase ≡ test
          → IsSound t
          → SameQueue (take_queue s) t
          → Eventually t)
      → Eventually s
  takes s w ok k = later s (
      logs s.queue_public s.overrun s.flush_requested (work s)
        (ap (λ (t : OutputWorker). t.phase) w) (work-IsSound s ok)
        (λ t e ok' same. k t e ok' (subst (λ (u : OutputWorker). SameQueue u t) w same)))
