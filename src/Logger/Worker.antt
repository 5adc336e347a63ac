-- ===== src/Logger/Worker.antt =====
-- OutputWorker: what its threads share and each thread's step from one shared access to the next, in
-- one session from Start on. A section under QueueLock is one step. LOGGER_NEVER_DROP and
-- LOGGER_FLUSH_ERRORS are not defined.
pub mod Sound
pub mod Progress
use siamese.Prelude.{
  ℕ, zero, suc, ◌+◌, ◌-◌, ◌^◌, ◌≤◌, ◌<◌, ◌≡◌, List, [], ◌∷◌, ◌++◌, Bool, true, false, not, ◌&&◌,
  leb, ltb, u32, if◌then◌else◌,
}
use siamese.Prelude.Lists.{length}
use siamese.Logger.Level.{QueuedMessage}

abbrev pub work_queue_limit : ℕ
work_queue_limit = 1024

-- Where the thread stands in Loop: its local variables are the messages of QueuePrivate that are
-- still to be logged, overrun, and flushRequested.
pub data Phase : Type 0 where
  absent : Phase  -- there is no thread
  test : Phase  -- at the test of the loop
  enter : Phase  -- before QueueLock
  waiting : Bool → Phase  -- in QueueCondition.wait, notified or not
  logging : List QueuedMessage → ℕ → Bool → Phase  -- in the loop over QueuePrivate
  clearing : Bool → Phase  -- before QueuePrivate.clear
  terminating : Phase  -- behind the loop
  ended : Phase  -- returned, and not joined

-- Where Stop stands, if it runs.
pub data Stopper : Type 0 where
  idle : Stopper
  flushing : Bool → Stopper  -- in Flush, asleep or not
  setting : Stopper  -- before Terminated is set
  notifying : Stopper  -- before QueueCondition is notified
  joining : Stopper
  finishing : Stopper  -- before FlushCondition is notified

-- What the thread wrote: a message, how many were lost, or that it terminates.
pub data Line : Type 0 where
  logged : QueuedMessage → Line
  lost : ℕ → Line
  terminated : Line

-- The members of OutputWorker; then the threads, the client's threads among them: how many stand in
-- Write before QueueCondition is notified, and those asleep in Flush, each as the number of messages
-- that were accepted when it asked. The last three tell what has happened: the lines written, the
-- messages that Write put into the queue, and how many it dropped.
pub record OutputWorker : Type 0 where
  pub queue_public : List QueuedMessage
  pub queue_private : List QueuedMessage
  pub overrun : ℕ
  pub flush_requested : Bool
  pub terminated_flag : Bool
  pub phase : Phase
  pub stopper : Stopper
  pub writers : ℕ
  pub flushers : List ℕ
  pub output : List Line
  pub accepted : List QueuedMessage
  pub dropped : ℕ

-- Start without a thread: a new session.
unfoldable pub start : OutputWorker
start = record {
  queue_public = [];
  queue_private = [];
  overrun = 0;
  flush_requested = false;
  terminated_flag = false;
  phase = test;
  stopper = idle;
  writers = 0;
  flushers = [];
  output = [];
  accepted = [];
  dropped = 0;
}

-- QueueCondition.notify_all.
abbrev pub signal : Phase → Phase
signal (waiting signalled) = waiting true
signal absent = absent
signal test = test
signal enter = enter
signal (logging rest overrun flush) = logging rest overrun flush
signal (clearing flush) = clearing flush
signal terminating = terminating
signal ended = ended

-- FlushCondition.notify_all, for a Stop that sleeps in Flush.
abbrev pub awaken : Stopper → Stopper
awaken (flushing asleep) = flushing false
awaken idle = idle
awaken setting = setting
awaken notifying = notifying
awaken joining = joining
awaken finishing = finishing

-- Write: first the section under QueueLock, then the notification.
unfoldable pub enqueue : QueuedMessage → OutputWorker → OutputWorker
enqueue message s =
    if leb work_queue_limit (length s.queue_public)
    then record s {
      overrun = u32 (s.overrun + 1);
      writers = s.writers + 1;
      dropped = s.dropped + 1;
    }
    else record s {
      queue_public = s.queue_public ++ message ∷ [];
      writers = s.writers + 1;
      accepted = s.accepted ++ message ∷ [];
    }

unfoldable pub notify_queue : OutputWorker → OutputWorker
notify_queue s = record s { phase = signal s.phase; writers = s.writers - 1 }

-- Flush of a client's thread, up to its wait.
unfoldable pub flush : OutputWorker → OutputWorker
flush s = if s.terminated_flag then s else record s {
  flush_requested = true;
  phase = signal s.phase;
  flushers = length s.accepted ∷ s.flushers;
}

-- The rest of the section under QueueLock in Loop, behind the wait.
abbrev pub take_queue : OutputWorker → OutputWorker
take_queue s = record s {
  queue_public = s.queue_private;
  queue_private = s.queue_public;
  overrun = 0;
  flush_requested = false;
  phase = logging s.queue_public s.overrun s.flush_requested;
}

abbrev pub is_empty : List QueuedMessage → Bool
is_empty [] = true
is_empty (m ∷ ms) = false

-- The thread's step from its phase. A thread that is not notified stays in its wait.
unfoldable pub advance : Phase → OutputWorker → OutputWorker
advance absent s = s
advance test s = record s { phase = if s.terminated_flag then terminating else enter }
advance enter s =
    if is_empty s.queue_public && not s.flush_requested && not s.terminated_flag
    then record s { phase = waiting false }
    else take_queue s
advance (waiting signalled) s = if signalled then take_queue s else s
advance (logging (m ∷ rest) overrun flush) s = record s {
  phase = logging rest overrun flush;
  output = s.output ++ logged m ∷ [];
}
advance (logging [] overrun flush) s = record s {
  phase = clearing flush;
  output =
      if ltb 0 overrun && ltb overrun (2 ^ 31) then s.output ++ lost overrun ∷ [] else s.output;
}
advance (clearing flush) s = record s {
  queue_private = [];
  phase = test;
  flushers = if flush then [] else s.flushers;
  stopper = if flush then awaken s.stopper else s.stopper;
}
advance terminating s = record s { phase = ended; output = s.output ++ terminated ∷ [] }
advance ended s = s

unfoldable pub work : OutputWorker → OutputWorker
work s = advance s.phase s

-- Stop's step.
unfoldable pub stop : Stopper → OutputWorker → OutputWorker
stop idle s = elim s.phase [
  | absent ↦ record s { stopper = finishing }
  | other ↦
      if s.terminated_flag
      then record s { stopper = setting }
      else record s { flush_requested = true; phase = signal s.phase; stopper = flushing true }
]
stop (flushing asleep) s = if asleep then s else record s { stopper = setting }
stop setting s = record s { terminated_flag = true; stopper = notifying }
stop notifying s = record s { phase = signal s.phase; stopper = joining }
stop joining s = elim s.phase [
  | ended ↦ record s { phase = absent; stopper = finishing }
  | other ↦ s
]
stop finishing s = record s { flushers = []; stopper = idle }

unfoldable pub stop_step : OutputWorker → OutputWorker
stop_step s = stop s.stopper s

-- A step of one of the threads. Both waits may also end by themselves.
pub data Step (s : OutputWorker) : OutputWorker → Type 0 where
  enqueued : (m : QueuedMessage) → Step s (enqueue m s)
  notified : 1 ≤ s.writers → Step s (notify_queue s)
  flushed : Step s (flush s)
  worked : Step s (work s)
  stopped : Step s (stop_step s)
  woken : (signalled : Bool) → s.phase ≡ waiting signalled → Step s (take_queue s)
  flush_woken :
      (front back : List ℕ) (asked : ℕ)
      → s.flushers ≡ front ++ asked ∷ back
      → Step s (record s { flushers = front ++ back })
  stop_woken : s.stopper ≡ flushing true → Step s (record s { stopper = flushing false })

pub data Steps (s : OutputWorker) : OutputWorker → Type 0 where
  begun : Steps s s
  next : {t u : OutputWorker} → Steps s t → Step t u → Steps s u
