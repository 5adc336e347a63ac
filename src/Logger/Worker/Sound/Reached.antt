-- ===== src/Logger/Worker/Sound/Reached.antt =====
-- What the logger keeps in every state that its threads reach from Start.
use siamese.Prelude.{
  ℕ, ◌+◌, ◌^◌, ◌≤◌, ◌<◌, ◌≡◌, refl, ap, ◌∙◌, arith, List, [], ◌∷◌, ◌++◌, Bool, true, false,
  if◌then◌else◌,
}
use siamese.Prelude.Lists.{length}
use siamese.Logger.Worker.{
  work_queue_limit, waiting, flushing, OutputWorker, start, is_empty, work, stop_step, Step,
  enqueued, notified, flushed, worked, stopped, woken, flush_woken, stop_woken, Steps, begun, next,
}
use siamese.Logger.Worker.Sound.{
  printed, reported, pending, unreported, flag, busy, unnotified, gone, about_to_notify, closing,
  sleeps, is_some, answering, IsSound,
}
use siamese.Logger.Worker.Sound.Kept.{
  start-IsSound, enqueue-IsSound, notify_queue-IsSound, flush-IsSound,
}
use siamese.Logger.Worker.Sound.Loop.{take_queue-IsSound, advance-IsSound}
use siamese.Logger.Worker.Sound.Stopping.{stop-IsSound}

pub work-IsSound : (s : OutputWorker) → IsSound s → IsSound (work s)
unfolding work
work-IsSound s ok = advance-IsSound s.phase s refl ok

is_some-append : (front back : List ℕ) (asked : ℕ) → is_some (front ++ asked ∷ back) ≡ true
is_some-append [] back asked = refl
is_some-append (n ∷ front) back asked = refl

-- A client that wakes by itself leaves the others asleep.
flush_wakes :
    (s : OutputWorker) (flushers' : List ℕ)
    → is_some s.flushers ≡ true
    → IsSound s
    → IsSound (record s { flushers = flushers' })
flush_wakes s flushers' asleep ok = record {
  ordered = ok.ordered;
  cleared = ok.cleared;
  bounded = ok.bounded;
  counted = ok.counted;
  awake = ok.awake;
  answered = λ e open_yet. ok.answered asleep open_yet;
  stop_answered = ok.stop_answered;
  alive = ok.alive;
  flagged = ok.flagged;
  joined = ok.joined;
  over = ok.over;
}

stop_wakes :
    (s : OutputWorker)
    → s.stopper ≡ flushing true
    → IsSound s
    → IsSound (record s { stopper = flushing false })
stop_wakes s e ok = ground arith

Step-IsSound : (s t : OutputWorker) → Step s t → IsSound s → IsSound t
unfolding stop_step
Step-IsSound s t (enqueued m) ok = enqueue-IsSound m s ok
Step-IsSound s t (notified h) ok = notify_queue-IsSound s ok
Step-IsSound s t flushed ok = flush-IsSound s ok
Step-IsSound s t worked ok = work-IsSound s ok
Step-IsSound s t stopped ok = stop-IsSound s.stopper s refl ok
Step-IsSound s t (woken signalled e) ok =
    take_queue-IsSound s ok (ap gone e) (ap busy e) (ap pending e) (ap unreported e) (ap flag e)
Step-IsSound s t (flush_woken front back asked e) ok =
    flush_wakes s (front ++ back) (ap is_some e ∙ is_some-append front back asked) ok
Step-IsSound s t (stop_woken e) ok = stop_wakes s e ok

pub Steps-IsSound : {s : OutputWorker} → Steps start s → IsSound s
Steps-IsSound begun = start-IsSound
Steps-IsSound (next {t = t} {u = u} before step) = Step-IsSound t u step (Steps-IsSound before)

-- In every state that the threads of the logger reach from Start, the messages that the queue
-- accepted are, in their order, the ones written, the ones that the thread holds and the ones
-- queued, of which there are at most 1024.
pub accepted_in_order :
    {s : OutputWorker}
    → Steps start s
    → (s.accepted ≡ printed s.output ++ (pending s.phase ++ s.queue_public))
      × (length s.queue_public ≤ work_queue_limit)
accepted_in_order steps = let ok = Steps-IsSound steps in (ok.ordered, ok.bounded)

-- In every state that the threads of the logger reach with fewer than 2 ^ 31 dropped messages, each
-- of these is told of in a line, held by the thread to be told of, or counted in Overrun.
pub dropped_are_told :
    {s : OutputWorker}
    → Steps start s
    → s.dropped < 2 ^ 31
    → reported s.output + unreported s.phase + s.overrun ≡ s.dropped
dropped_are_told steps = (Steps-IsSound steps).counted

-- In every state that the threads of the logger reach, a thread that sleeps unnotified while neither
-- a writer nor Stop is about to notify it has nothing to do: the queue is empty, no flush is
-- requested, and Terminated is not set.
pub no_lost_wakeup :
    {s : OutputWorker}
    → Steps start s
    → s.phase ≡ waiting false
    → s.writers ≡ 0
    → about_to_notify s.stopper ≡ false
    → (is_empty s.queue_public ≡ true) × (s.flush_requested ≡ false) × (s.terminated_flag ≡ false)
no_lost_wakeup steps e quiet none_about =
    (Steps-IsSound steps).awake (ap unnotified e) quiet none_about

-- Somebody sleeps in Flush: a client's thread, or Stop.
abbrev pub asleep_in_flush : OutputWorker → Bool
asleep_in_flush s = if is_some s.flushers then true else sleeps s.stopper

asleep_is_answered :
    (s : OutputWorker)
    → IsSound s
    → asleep_in_flush s ≡ true
    → closing s.stopper ≡ false
    → (s.terminated_flag ≡ false) × (answering s ≡ true)
asleep_is_answered s ok asleep open_yet = ground arith

-- In every state that the threads of the logger reach, while a client or Stop sleeps in Flush, and
-- Stop is not behind setting Terminated, a flush is requested or the thread has taken the request,
-- and Terminated is not set.
pub flush_is_answered :
    {s : OutputWorker}
    → Steps start s
    → asleep_in_flush s ≡ true
    → closing s.stopper ≡ false
    → (s.terminated_flag ≡ false) × (answering s ≡ true)
flush_is_answered {s = s} steps = asleep_is_answered s (Steps-IsSound steps)
