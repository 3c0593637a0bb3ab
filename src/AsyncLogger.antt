-- ===== src/AsyncLogger.antt =====
-- internal/middleware/async_logger.go: the asynchronous logger, a bounded channel of entries, a
-- pool of workers that write them, and `Stop`. The entries are of any type `E`, and whether the
-- logging service fails is chosen anew at each write. The calls of `Log`, the workers and `Stop`
-- are goroutines: each of their steps between two operations on a channel or a counter is a step of
-- `Step`. The counters are unbounded.
pub mod Totals
pub mod Invariant
pub mod Workers
pub mod Steps
pub mod Shutdown
pub mod Ends
mod Examples
use pack_service.Base.{
  ℕ, suc, ◌+◌, ◌≡◌, Bool, true, false, List, [], ◌∷◌, ◌++◌, Option, none, some, ltb, length,
  get_elem?, set, replicate, if◌then◌else◌, Outcome, returns, panics, ◌>>=◌,
}
use pack_service.AsyncLogger.Totals.{total}

-- `AsyncLogger`, with its channels: `buffer` is what `entryCh` holds, `stopped` says that `stopCh`
-- is closed, and `closed` that `entryCh` is.
pub record AsyncLogger (E : Type 0) : Type 0 where
  pub buffer : List E
  pub capacity : ℕ
  pub stopped : Bool
  pub closed : Bool
  pub enqueued : ℕ
  pub dropped : ℕ
  pub written : ℕ
  pub errors : ℕ

-- `AsyncLoggerConfig`
pub record AsyncLoggerConfig : Type 0 where
  pub buffer_size : ℕ
  pub num_workers : ℕ
  pub write_timeout : ℕ

-- `DefaultAsyncLoggerConfig`
abbrev pub default_config : AsyncLoggerConfig
default_config = record { buffer_size = 1000; num_workers = 4; write_timeout = 5_000_000_000 }

-- Where a worker stands: at the outer `select`, in `writeEntry`, at the inner `select`, in
-- `writeEntry` from there, or returned. `broken` is a worker that has taken the zero value out of a
-- closed channel.
pub data Worker (E : Type 0) : Type 0 where
  waiting : Worker E
  writing : E → Worker E
  draining : Worker E
  drain_writing : E → Worker E
  broken : Worker E
  exited : Worker E

module _ {E : Type 0} where
  -- `NewAsyncLogger`: the logger and its workers, or nil without a logging service
  unfoldable pub new_async_logger :
      Bool → AsyncLoggerConfig → Option (AsyncLogger E × List (Worker E))
  new_async_logger false cfg = none
  new_async_logger true cfg = some (
    record {
      buffer = [];
      capacity = cfg.buffer_size;
      stopped = false;
      closed = false;
      enqueued = 0;
      dropped = 0;
      written = 0;
      errors = 0;
    },
    replicate cfg.num_workers waiting,
  )

  -- `writeEntry`, where `failed` is whether `CreateLog` fails
  unfoldable pub write_entry : AsyncLogger E → Bool → AsyncLogger E
  write_entry l true = record l { errors = l.errors + 1 }
  write_entry l false = record l { written = l.written + 1 }

  -- The `select` of `Log`: whether the channel takes the entry. A closed channel panics.
  unfoldable pub send : AsyncLogger E → E → Outcome (AsyncLogger E × Bool)
  send l e =
      if l.closed
      then panics
      else if ltb (length l.buffer) l.capacity
      then returns (record l { buffer = l.buffer ++ e ∷ [] }, true)
      else returns (l, false)

  -- The counters after it.
  unfoldable pub count_sent : AsyncLogger E → Bool → AsyncLogger E
  count_sent l true = record l { enqueued = l.enqueued + 1 }
  count_sent l false = record l { dropped = l.dropped + 1 }

  -- `Log` with nothing in between, where no worker waits at the channel
  unfoldable pub log : AsyncLogger E → E → Outcome (AsyncLogger E × Bool)
  unfolding send count_sent
  log l e = send l e >>= λ r. returns (count_sent r.0 r.1, r.1)

  -- `close(al.stopCh)` and `close(al.entryCh)`: a channel is closed only once.
  unfoldable pub close_stop : AsyncLogger E → Outcome (AsyncLogger E)
  close_stop l = if l.stopped then panics else returns (record l { stopped = true })

  unfoldable pub close_entries : AsyncLogger E → Outcome (AsyncLogger E)
  close_entries l = if l.closed then panics else returns (record l { closed = true })

  -- `Stats`
  unfoldable pub stats : AsyncLogger E → ℕ × ℕ × ℕ × ℕ
  stats l = (l.enqueued, l.dropped, l.written, l.errors)

  -- A step of `worker`: the logger and the place of the worker before and after it, and the entries
  -- that were given to the logging service.
  pub data Move (l : AsyncLogger E) : Worker E → AsyncLogger E → Worker E → List E → Type 0 where
    receive :
        (e : E) (rest : List E)
        → l.buffer ≡ e ∷ rest
        → Move l waiting (record l { buffer = rest }) (writing e) []
    return_closed : l.buffer ≡ [] → l.closed ≡ true → Move l waiting l exited []
    turn : l.stopped ≡ true → Move l waiting l draining []
    write : (e : E) (failed : Bool) → Move l (writing e) (write_entry l failed) waiting (e ∷ [])
    drain :
        (e : E) (rest : List E)
        → l.buffer ≡ e ∷ rest
        → Move l draining (record l { buffer = rest }) (drain_writing e) []
    drain_closed : l.buffer ≡ [] → l.closed ≡ true → Move l draining l broken []
    drain_write :
        (e : E) (failed : Bool) → Move l (drain_writing e) (write_entry l failed) draining (e ∷ [])
    finish : l.buffer ≡ [] → l.closed ≡ false → Move l draining l exited []

-- The logger, its workers, the calls of `Log` between their two operations, and what has happened:
-- the entries that the channel took, those given to the logging service, the number of calls of
-- `Log`, and of those that the channel took after `Stop` had begun.
pub record World (E : Type 0) : Type 0 where
  pub logger : AsyncLogger E
  pub workers : List (Worker E)
  pub sending : ℕ
  pub accepted : List E
  pub processed : List E
  pub asked : ℕ
  pub late : ℕ

abbrev pub one_if : Bool → ℕ
one_if true = 1
one_if false = 0

module _ {E : Type 0} where
  -- A worker that has not returned.
  abbrev pub alive : Worker E → ℕ
  alive exited = 0
  alive _ = 1

  abbrev pub start : AsyncLogger E × List (Worker E) → World E
  start (l, ws) = record {
    logger = l;
    workers = ws;
    sending = 0;
    accepted = [];
    processed = [];
    asked = 0;
    late = 0;
  }

  -- The entry `e` was taken.
  abbrev pub took : World E → E → AsyncLogger E → List (Worker E) → World E
  took w e l ws = record {
    logger = l;
    workers = ws;
    sending = w.sending + 1;
    accepted = w.accepted ++ e ∷ [];
    processed = w.processed;
    asked = w.asked + 1;
    late = w.late + one_if w.logger.stopped;
  }

  pub data Step (w : World E) : World E → Type 0 where
    log_sent :
        (e : E) (l : AsyncLogger E)
        → send w.logger e ≡ returns (l, true)
        → Step w (took w e l w.workers)
    -- A worker that waits at an empty channel is handed the entry.
    log_handed :
        (e : E) (i : ℕ)
        → get_elem? w.workers i ≡ some waiting
        → w.logger.buffer ≡ []
        → w.logger.closed ≡ false
        → Step w (took w e w.logger (set w.workers i (writing e)))
    log_counted :
        (n : ℕ)
        → w.sending ≡ suc n
        → Step w (record w { sending = n; logger = count_sent w.logger true })
    log_dropped :
        (e : E) (l : AsyncLogger E)
        → send w.logger e ≡ returns (l, false)
        → Step w (record w { logger = count_sent l false; asked = w.asked + 1 })
    work :
        (i : ℕ) {p q : Worker E} {l : AsyncLogger E} {done : List E}
        → get_elem? w.workers i ≡ some p
        → Move w.logger p l q done
        → Step w
            (record w { logger = l; workers = set w.workers i q; processed = w.processed ++ done })
    stop_begins :
        (l : AsyncLogger E) → close_stop w.logger ≡ returns l → Step w (record w { logger = l })
    -- `wg.Wait()` has returned.
    stop_ends :
        (l : AsyncLogger E)
        → w.logger.stopped ≡ true
        → total alive w.workers ≡ 0
        → close_entries w.logger ≡ returns l
        → Step w (record w { logger = l })

  pub data Reach (w : World E) : World E → Type 0 where
    here : Reach w w
    next : {u v : World E} → Reach w u → Step u v → Reach w v
