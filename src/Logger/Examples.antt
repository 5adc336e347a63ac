-- ===== src/Logger/Examples.antt =====
-- The logger: runs of its threads as tests, and the theorems at states that meet their conditions.
use siamese.Prelude.{ℕ, ◌+◌, ◌≤◌, ◌≡◌, refl, arith, [], ◌∷◌, ◌++◌, true, false}
use siamese.Prelude.Lists.{length}
use siamese.Logger.Level.{
  silent, codes, info, error, level_to_char, QueuedMessage, log_line, terminating_message, Channel,
  should_log, text, boolean, log_stringize, write_log_buffer, channel_log, write_log_line,
  log_error, log_warning, log_info, log_debug,
}
use siamese.Logger.Worker.{
  work_queue_limit, terminated, OutputWorker, start, enqueue, notify_queue, flush, is_empty,
  advance, work, stop, stop_step, enqueued, notified, flushed, worked, stopped, Steps, begun, next,
}
use siamese.Logger.Worker.Sound.{printed, reported, pending, unreported, sleeps, answering}
use siamese.Logger.Worker.Sound.Reached.{
  accepted_in_order, dropped_are_told, no_lost_wakeup, flush_is_answered,
}
use siamese.Logger.Worker.Progress.{works}
use siamese.Logger.Worker.Progress.Flush.{flush_completes}
use siamese.Logger.Worker.Progress.Ending.{is_over, thread_ends}

abbrev channel : Channel
channel = record { channel_name = codes "Decoder"; channel_min_level = info; prefix = codes "> " }

abbrev first_message : QueuedMessage
first_message = record {
  log_level = info;
  channel_name = codes "Decoder";
  message = codes "> ready: true";
}

abbrev second_message : QueuedMessage
second_message = record {
  log_level = error;
  channel_name = codes "Decoder";
  message = codes "> failed";
}

channel_test : log_info channel (text (codes "ready: ") ∷ boolean true ∷ []) ≡ first_message ∷ []
unfolding log_info channel_log should_log write_log_line write_log_buffer log_stringize
channel_test = refl

-- The channel passes on what is at its level or above.
levels_test :
    (log_debug channel [] ≡ [])
    × (length (log_warning channel []) ≡ 1)
    × (length (log_error (record channel { channel_min_level = silent }) []) ≡ 0)
unfolding log_debug log_warning log_error channel_log should_log
levels_test = (refl, refl, refl)

line_test : log_line first_message ≡ codes "{I-Decoder} > ready: true" ++ 10 ∷ []
unfolding log_line level_to_char
line_test = refl

last_line_test : log_line terminating_message ≡ codes "{I-Logger} Terminating" ++ 10 ∷ []
unfolding log_line level_to_char terminating_message
last_line_test = refl

-- The thread sleeps behind an empty queue; then it holds a message, with a flush requested.
abbrev asleep : OutputWorker
asleep = work (work start)

asleep-Steps : Steps start asleep
asleep-Steps = next (next begun worked) worked

abbrev holding : OutputWorker
holding = work (flush (notify_queue (enqueue first_message asleep)))

holding-Steps : Steps start holding
unfolding enqueue work advance start
holding-Steps =
    next (next (next (next asleep-Steps (enqueued first_message)) (notified (omega arith))) flushed)
      worked

-- A second client logs and flushes while the thread writes what the first one logged: both clients
-- are woken behind that batch, with the second message still in the queue.
abbrev early : OutputWorker
early = work (work (work (flush (notify_queue (enqueue second_message holding)))))

early_test :
    (early.flushers ≡ [])
    × (printed early.output ≡ first_message ∷ [])
    × (early.queue_public ≡ second_message ∷ [])
unfolding enqueue notify_queue flush work advance start
early_test = (refl, refl, refl)

-- Stop from the state in which the thread sleeps, up to the flag; then a client logs.
abbrev stopping : OutputWorker
stopping = stop_step (works 3 (stop_step asleep))

stopping-Steps : Steps start stopping
stopping-Steps = next (next (next (next (next asleep-Steps stopped) worked) worked) worked) stopped

abbrev told : OutputWorker
told = stop_step (stop_step (notify_queue (enqueue second_message stopping)))

told-Steps : Steps start told
unfolding enqueue
told-Steps =
    next
      (next (next (next stopping-Steps (enqueued second_message)) (notified (ground arith)))
        stopped)
      stopped

-- The message that Write accepted is never written.
unwritten_test :
    ((works 2 told).output ≡ terminated ∷ [])
    × (is_over (works 2 told).phase ≡ true)
    × ((works 2 told).queue_public ≡ second_message ∷ [])
unfolding enqueue notify_queue flush work advance stop stop_step start
unwritten_test = (refl, refl, refl)

accepted_in_order_example :
    (holding.accepted ≡ printed holding.output ++ (pending holding.phase ++ holding.queue_public))
    × (length holding.queue_public ≤ work_queue_limit)
accepted_in_order_example = accepted_in_order holding-Steps

dropped_are_told_example :
    reported holding.output + unreported holding.phase + holding.overrun ≡ holding.dropped
unfolding enqueue notify_queue flush work advance start
dropped_are_told_example = dropped_are_told holding-Steps (omega arith)

no_lost_wakeup_example :
    (is_empty asleep.queue_public ≡ true)
    × (asleep.flush_requested ≡ false)
    × (asleep.terminated_flag ≡ false)
unfolding work advance start
no_lost_wakeup_example = no_lost_wakeup asleep-Steps refl refl refl

flush_is_answered_example : (holding.terminated_flag ≡ false) × (answering holding ≡ true)
unfolding enqueue notify_queue flush work advance start
flush_is_answered_example = flush_is_answered holding-Steps refl refl

flush_completes_example :
    (n : ℕ) × (printed (works n holding).output ≡ holding.accepted)
    × ((works n holding).flushers ≡ [])
    × (sleeps (works n holding).stopper ≡ false)
unfolding enqueue notify_queue flush work advance start
flush_completes_example = flush_completes holding-Steps refl refl

thread_ends_example : (n : ℕ) × (is_over (works n told).phase ≡ true)
unfolding enqueue notify_queue flush work advance stop stop_step start
thread_ends_example = thread_ends told-Steps refl refl refl
