-- ===== src/AsyncLogger/Examples.antt =====
-- A run of the asynchronous logger up to the end of `Stop`, and each theorem of this part at it.
use pack_service.Base.{
  ℕ, ◌+◌, ◌≤◌, ◌≡◌, refl, true, false, List, [], ◌∷◌, some, arith, panics, returns,
}
use pack_service.AsyncLogger.{
  AsyncLogger, AsyncLoggerConfig, Worker, waiting, writing, exited, new_async_logger, write_entry,
  send, count_sent, log, close_stop, close_entries, stats, turn, drain, drain_write, finish,
  receive, World, start, log_sent, log_counted, work, stop_begins, stop_ends, Reach, here, next,
}
use pack_service.AsyncLogger.Totals.{total}
use pack_service.AsyncLogger.Invariant.{IsSound}
use pack_service.AsyncLogger.Steps.{Reach-IsSound}
use pack_service.AsyncLogger.Shutdown.{stop_complete}
use pack_service.AsyncLogger.Ends.{
  measure, Works, rests, goes, worked, IsDoneOrWorks, stop-terminates,
}

-- Room for two entries, and one worker. The entries are numbers.
abbrev small : AsyncLoggerConfig
small = record { buffer_size = 2; num_workers = 1; write_timeout = 5 }

abbrev idle : AsyncLogger ℕ
idle = record {
  buffer = [];
  capacity = 2;
  stopped = false;
  closed = false;
  enqueued = 0;
  dropped = 0;
  written = 0;
  errors = 0;
}

abbrev new_small : AsyncLogger ℕ × List (Worker ℕ)
new_small = (idle, waiting ∷ [])

is_new : new_async_logger true small ≡ some new_small
unfolding new_async_logger
is_new = refl

-- The entry 7 is taken and counted, and `Stop` begins.
asked_to_stop : Reach (start new_small) (record {
  logger = record idle { buffer = 7 ∷ []; enqueued = 1; stopped = true };
  workers = waiting ∷ [];
  sending = 0;
  accepted = 7 ∷ [];
  processed = [];
  asked = 1;
  late = 0;
})
unfolding send count_sent close_stop
asked_to_stop =
    next (next (next here (log_sent 7 _ refl)) (log_counted 0 refl)) (stop_begins _ refl)

-- The worker writes the entry 7 and returns; then the entry 8 is taken, and `Stop` ends. Nobody is
-- left to write the entry 8.
abbrev lost : World ℕ
lost = record {
  logger = record idle {
    buffer = 8 ∷ [];
    enqueued = 1;
    written = 1;
    stopped = true;
    closed = true;
  };
  workers = exited ∷ [];
  sending = 1;
  accepted = 7 ∷ 8 ∷ [];
  processed = 7 ∷ [];
  asked = 2;
  late = 1;
}

stopped_late : Reach (start new_small) lost
unfolding send count_sent close_stop close_entries write_entry
stopped_late =
    next
      (next
        (next
          (next
            (next (next asked_to_stop (work 0 refl (turn refl))) (work 0 refl (drain 7 [] refl)))
            (work 0 refl (drain_write 7 false)))
          (work 0 refl (finish refl refl)))
        (log_sent 8 _ refl))
      (stop_ends _ refl refl refl)

-- A call of `Log` after the end of `Stop` panics.
log_after_stop : log lost.logger 9 ≡ panics
unfolding log
log_after_stop = refl

full :
    log (record idle { buffer = 1 ∷ 2 ∷ [] }) 9
    ≡ returns (record idle { buffer = 1 ∷ 2 ∷ []; dropped = 1 }, false)
unfolding log
full = refl

counters : stats lost.logger ≡ (1, 0, 1, 0)
unfolding stats
counters = refl

Reach-IsSound_example : IsSound lost
Reach-IsSound_example = Reach-IsSound small new_small is_new stopped_late

stop_complete_example :
    ((w : ℕ → ℕ) → total w (7 ∷ 8 ∷ []) ≡ total w (7 ∷ []) + total w (8 ∷ [])) × (1 ≤ 1)
stop_complete_example = stop_complete small new_small lost is_new stopped_late (omega arith) refl

abbrev stopping : World ℕ
stopping = record {
  logger = record idle { buffer = 7 ∷ []; enqueued = 1; stopped = true };
  workers = waiting ∷ [];
  sending = 0;
  accepted = 7 ∷ [];
  processed = [];
  asked = 1;
  late = 0;
}

abbrev received : World ℕ
received = record stopping {
  logger = record stopping.logger { buffer = [] };
  workers = writing 7 ∷ [];
}

one_step : Works stopping 1 received
one_step = goes rests (worked 0 refl (receive 7 [] refl))

stop-terminates_example : (1 ≤ measure stopping) × IsDoneOrWorks received
stop-terminates_example =
    stop-terminates small new_small stopping received 1 is_new asked_to_stop refl refl one_step
