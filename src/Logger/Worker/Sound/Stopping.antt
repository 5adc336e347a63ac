-- ===== src/Logger/Worker/Sound/Stopping.antt =====
-- The steps of Stop keep what is sound.
use siamese.Prelude.{◌≡◌, refl, arith}
use siamese.Prelude.{true, if◌then◌else◌}
use siamese.Logger.Worker.{
  Phase, absent, test, enter, waiting, logging, clearing, terminating, ended, Stopper, idle,
  flushing, setting, notifying, joining, finishing, OutputWorker, signal, flush, stop,
}
use siamese.Logger.Worker.Sound.{IsSound}

abbrev begin_stop : Phase → OutputWorker → OutputWorker
begin_stop p s = elim p [
  | absent ↦ record s { stopper = finishing }
  | other ↦
      if s.terminated_flag
      then record s { stopper = setting }
      else record s { flush_requested = true; phase = signal s.phase; stopper = flushing true }
]

stop_begins :
    (p : Phase) (s : OutputWorker)
    → s.phase ≡ p
    → s.stopper ≡ idle
    → IsSound s
    → IsSound (begin_stop p s)
stop_begins absent s e f ok = ground arith
stop_begins test s e f ok = ground arith
stop_begins enter s e f ok = ground arith
stop_begins (waiting signalled) s e f ok = ground arith
stop_begins (logging rest overrun flush) s e f ok = ground arith
stop_begins (clearing flush) s e f ok = ground arith
stop_begins terminating s e f ok = ground arith
stop_begins ended s e f ok = ground arith

abbrev join_thread : Phase → OutputWorker → OutputWorker
join_thread p s = elim p [ ended ↦ record s { phase = absent; stopper = finishing } | other ↦ s ]

stop_joins :
    (p : Phase) (s : OutputWorker)
    → s.phase ≡ p
    → s.stopper ≡ joining
    → IsSound s
    → IsSound (join_thread p s)
stop_joins ended s e f ok = ground arith
stop_joins other s e f ok = ok

pub stop-IsSound : (p : Stopper) (s : OutputWorker) → s.stopper ≡ p → IsSound s → IsSound (stop p s)
unfolding stop
stop-IsSound idle s e ok = stop_begins s.phase s refl e ok
stop-IsSound (flushing asleep) s e ok = ground arith
stop-IsSound setting s e ok = ground arith
stop-IsSound notifying s e ok = ground arith
stop-IsSound joining s e ok = stop_joins s.phase s refl e ok
stop-IsSound finishing s e ok = ground arith
