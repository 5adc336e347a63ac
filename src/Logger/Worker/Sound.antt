-- ===== src/Logger/Worker/Sound.antt =====
-- What the steps of the logger's threads keep.
pub mod Kept
pub mod Loop
pub mod Stopping
pub mod Reached
use siamese.Prelude.{
  ℕ, ◌+◌, ◌^◌, ◌≤◌, ◌<◌, ◌≡◌, List, [], ◌∷◌, ◌++◌, Bool, true, false, not, if◌then◌else◌,
}
use siamese.Prelude.Lists.{length}
use siamese.Logger.Level.{QueuedMessage}
use siamese.Logger.Worker.{
  work_queue_limit, Phase, absent, test, enter, waiting, logging, clearing, terminating, ended,
  Stopper, idle, flushing, setting, notifying, joining, finishing, Line, logged, lost, terminated,
  OutputWorker, is_empty,
}

-- The messages among the lines, and how many lost ones the lines tell of.
abbrev pub printed : List Line → List QueuedMessage
printed [] = []
printed (logged m ∷ lines) = m ∷ printed lines
printed (lost n ∷ lines) = printed lines
printed (terminated ∷ lines) = printed lines

abbrev pub reported : List Line → ℕ
reported [] = 0
reported (logged m ∷ lines) = reported lines
reported (lost n ∷ lines) = n + reported lines
reported (terminated ∷ lines) = reported lines

-- What the thread holds: messages to log, and lost ones to tell of.
abbrev pub pending : Phase → List QueuedMessage
pending (logging rest overrun flush) = rest
pending absent = []
pending test = []
pending enter = []
pending (waiting signalled) = []
pending (clearing flush) = []
pending terminating = []
pending ended = []

abbrev pub unreported : Phase → ℕ
unreported (logging rest overrun flush) = overrun
unreported absent = 0
unreported test = 0
unreported enter = 0
unreported (waiting signalled) = 0
unreported (clearing flush) = 0
unreported terminating = 0
unreported ended = 0

-- The thread has taken a request to flush.
abbrev pub flag : Phase → Bool
flag (logging rest overrun flush) = flush
flag (clearing flush) = flush
flag absent = false
flag test = false
flag enter = false
flag (waiting signalled) = false
flag terminating = false
flag ended = false

abbrev pub busy : Phase → Bool
busy (logging rest overrun flush) = true
busy (clearing flush) = true
busy absent = false
busy test = false
busy enter = false
busy (waiting signalled) = false
busy terminating = false
busy ended = false

-- The thread sleeps, and nobody has notified it.
abbrev pub unnotified : Phase → Bool
unnotified (waiting signalled) = not signalled
unnotified absent = false
unnotified test = false
unnotified enter = false
unnotified (logging rest overrun flush) = false
unnotified (clearing flush) = false
unnotified terminating = false
unnotified ended = false

-- The thread is behind its loop.
abbrev pub gone : Phase → Bool
gone terminating = true
gone ended = true
gone absent = true
gone test = false
gone enter = false
gone (waiting signalled) = false
gone (logging rest overrun flush) = false
gone (clearing flush) = false

abbrev pub is_absent : Phase → Bool
is_absent absent = true
is_absent test = false
is_absent enter = false
is_absent (waiting signalled) = false
is_absent (logging rest overrun flush) = false
is_absent (clearing flush) = false
is_absent terminating = false
is_absent ended = false

-- Where Stop stands: before it notifies the thread, behind the flag, at its end, before the flag.
abbrev pub about_to_notify : Stopper → Bool
about_to_notify notifying = true
about_to_notify idle = false
about_to_notify (flushing asleep) = false
about_to_notify setting = false
about_to_notify joining = false
about_to_notify finishing = false

abbrev pub closing : Stopper → Bool
closing notifying = true
closing joining = true
closing finishing = true
closing idle = false
closing (flushing asleep) = false
closing setting = false

abbrev pub is_finishing : Stopper → Bool
is_finishing finishing = true
is_finishing idle = false
is_finishing (flushing asleep) = false
is_finishing setting = false
is_finishing notifying = false
is_finishing joining = false

abbrev pub is_idle : Stopper → Bool
is_idle idle = true
is_idle (flushing asleep) = false
is_idle setting = false
is_idle notifying = false
is_idle joining = false
is_idle finishing = false

abbrev pub sleeps : Stopper → Bool
sleeps (flushing asleep) = asleep
sleeps idle = false
sleeps setting = false
sleeps notifying = false
sleeps joining = false
sleeps finishing = false

abbrev pub is_some : List ℕ → Bool
is_some [] = false
is_some (x ∷ xs) = true

-- A flush is requested, or the thread has taken the request.
abbrev pub answering : OutputWorker → Bool
answering s = if s.flush_requested then true else flag s.phase

pub record IsSound (s : OutputWorker) : Type 0 where
  pub ordered : s.accepted ≡ printed s.output ++ (pending s.phase ++ s.queue_public)
  pub cleared : busy s.phase ≡ false → s.queue_private ≡ []
  pub bounded : length s.queue_public ≤ work_queue_limit
  pub counted : s.dropped < 2 ^ 31 → reported s.output + unreported s.phase + s.overrun ≡ s.dropped
  pub awake :
      unnotified s.phase ≡ true
      → s.writers ≡ 0
      → about_to_notify s.stopper ≡ false
      → (is_empty s.queue_public ≡ true) × (s.flush_requested ≡ false) × (s.terminated_flag ≡ false)
  pub answered :
      is_some s.flushers ≡ true
      → closing s.stopper ≡ false
      → (s.terminated_flag ≡ false) × (answering s ≡ true)
  pub stop_answered : sleeps s.stopper ≡ true → answering s ≡ true
  pub alive : s.terminated_flag ≡ false → gone s.phase ≡ false
  pub flagged : closing s.stopper ≡ true → s.terminated_flag ≡ true
  pub joined : is_finishing s.stopper ≡ true → is_absent s.phase ≡ true
  pub over :
      s.terminated_flag ≡ true
      → closing s.stopper ≡ false
      → (is_absent s.phase ≡ true) × (is_idle s.stopper ≡ true)
