-- ===== src/Logger/Worker/Sound/Kept.antt =====
-- Start, Write and Flush keep what is sound.
use siamese.Prelude.{ap, ◌∙◌, arith, List, [], ◌∷◌, ◌++◌}
use siamese.Prelude.{leb, if_cases}
use mathlib.Core.List.{append_assoc}
use siamese.Prelude.Lists.{length, length-append}
use siamese.Logger.Level.{QueuedMessage}
use siamese.Logger.Worker.{work_queue_limit, OutputWorker, start, enqueue, notify_queue, flush}
use siamese.Logger.Worker.Sound.{printed, pending, IsSound}

pub start-IsSound : IsSound start
unfolding start
start-IsSound = ground arith

pub enqueue-IsSound : (m : QueuedMessage) (s : OutputWorker) → IsSound s → IsSound (enqueue m s)
unfolding enqueue
enqueue-IsSound m s ok =
    if_cases IsSound (leb work_queue_limit (length s.queue_public))
      (λ t. record {
        ordered = ok.ordered;
        cleared = ok.cleared;
        bounded = ok.bounded;
        counted = λ h. omega (arith, ok.counted (omega arith));
        awake = λ u z b. absurd (omega arith);
        answered = ok.answered;
        stop_answered = ok.stop_answered;
        alive = ok.alive;
        flagged = ok.flagged;
        joined = ok.joined;
        over = ok.over;
      })
      (λ t. record {
        ordered =
            ap (λ (xs : List QueuedMessage). xs ++ m ∷ []) ok.ordered
            ∙ append_assoc (printed s.output) (pending s.phase ++ s.queue_public) (m ∷ [])
            ∙ ap (λ (xs : List QueuedMessage). printed s.output ++ xs)
                (append_assoc (pending s.phase) s.queue_public (m ∷ []));
        cleared = ok.cleared;
        bounded = ground (arith, length-append s.queue_public (m ∷ []));
        counted = ok.counted;
        awake = λ u z b. absurd (omega arith);
        answered = ok.answered;
        stop_answered = ok.stop_answered;
        alive = ok.alive;
        flagged = ok.flagged;
        joined = ok.joined;
        over = ok.over;
      })

pub notify_queue-IsSound : (s : OutputWorker) → IsSound s → IsSound (notify_queue s)
unfolding notify_queue
notify_queue-IsSound s ok = ground arith

pub flush-IsSound : (s : OutputWorker) → IsSound s → IsSound (flush s)
unfolding flush
flush-IsSound s ok = ground arith
