-- ===== src/Logger/Worker/Progress/Ending.antt =====
-- The thread ends once it is told to.
use siamese.Prelude.{ℕ, ◌≡◌, refl, ap, ◌∙◌, Bool, true, false, not, ◌&&◌, if◌then◌else◌}
use siamese.Logger.Worker.{
  Phase, absent, test, enter, waiting, logging, clearing, terminating, ended, OutputWorker, start,
  take_queue, is_empty, advance, work, Steps,
}
use siamese.Logger.Worker.Sound.{unnotified, about_to_notify, IsSound}
use siamese.Logger.Worker.Sound.Reached.{Steps-IsSound}
use siamese.Logger.Worker.Progress.{
  works, work_at, SameQueue, Eventually, now, later, logs, clears, takes,
}

abbrev pub is_over : Phase → Bool
is_over ended = true
is_over absent = true
is_over test = false
is_over enter = false
is_over (waiting signalled) = false
is_over (logging rest overrun flush) = false
is_over (clearing flush) = false
is_over terminating = false

abbrev Over : OutputWorker → Type 0
Over t = is_over t.phase ≡ true

ends_behind : (s : OutputWorker) → s.phase ≡ terminating → Eventually Over s
unfolding advance
ends_behind s e =
    later Over s
      (now Over (work s) (ap (λ (t : OutputWorker). is_over t.phase) (work_at terminating s e)))

ends_tested : (s : OutputWorker) → s.phase ≡ test → s.terminated_flag ≡ true → Eventually Over s
unfolding advance
ends_tested s e told = later Over s (
    ends_behind (work s) (
      ap (λ (t : OutputWorker). t.phase) (work_at test s e)
      ∙ ap (λ (b : Bool). if b then terminating else enter) told))

ends_next :
    (s : OutputWorker)
    → s.terminated_flag ≡ true
    → (t : OutputWorker) → t.phase ≡ test
    → IsSound t
    → SameQueue s t
    → Eventually Over t
ends_next s told t e ok same = ends_tested t e (same.same_flag ∙ told)

ends_taken :
    (s : OutputWorker)
    → work s ≡ take_queue s
    → IsSound s
    → s.terminated_flag ≡ true
    → Eventually Over s
ends_taken s w ok told = takes Over s w ok (ends_next (take_queue s) told)

never_asleep : (a b c : Bool) → c ≡ true → a && b && not c ≡ false
never_asleep true true c e = ap not e
never_asleep true false c e = refl
never_asleep false b c e = refl

ends_from :
    (p : Phase) (s : OutputWorker)
    → s.phase ≡ p
    → IsSound s
    → s.terminated_flag ≡ true
    → s.writers ≡ 0
    → about_to_notify s.stopper ≡ false
    → Eventually Over s
unfolding advance
ends_from test s e ok told still none_about = ends_tested s e told
ends_from enter s e ok told still none_about =
    let stepped = λ (b : Bool). if b then record s { phase = waiting false } else take_queue s in
    ends_taken s
      (work_at enter s e
        ∙ ap stepped
            (never_asleep (is_empty s.queue_public) (not s.flush_requested) s.terminated_flag told))
      ok told
ends_from (waiting true) s e ok told still none_about =
    ends_taken s (work_at (waiting true) s e) ok told
ends_from (waiting false) s e ok told still none_about =
    let facts = ok.awake (ap unnotified e) still none_about in cc (facts.2, told)
ends_from (logging rest overrun flush) s e ok told still none_about =
    logs Over rest overrun flush s e ok (ends_next s told)
ends_from (clearing flush) s e ok told still none_about =
    clears Over s flush e ok (ends_next s told)
ends_from terminating s e ok told still none_about = ends_behind s e
ends_from ended s e ok told still none_about = now Over s (ap is_over e)
ends_from absent s e ok told still none_about = now Over s (ap is_over e)

-- From every state that the threads of the logger reach in which Terminated is set and neither Stop
-- nor a writer is about to notify the thread, the thread by its own steps gets to its end, which
-- Stop's join waits for.
pub thread_ends :
    {s : OutputWorker}
    → Steps start s
    → s.terminated_flag ≡ true
    → s.writers ≡ 0
    → about_to_notify s.stopper ≡ false
    → (n : ℕ) × (is_over (works n s).phase ≡ true)
thread_ends {s = s} steps told still none_about =
    ends_from s.phase s refl (Steps-IsSound steps) told still none_about
