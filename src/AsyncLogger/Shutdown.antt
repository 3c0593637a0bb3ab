-- ===== src/AsyncLogger/Shutdown.antt =====
-- What `Stop` promises: the workers come to an end, and nothing that was taken before is lost.
use pack_service.Base.{
  ℕ, ◌+◌, ◌≤◌, ◌<◌, ◌≡◌, refl, ◌∙◌, true, List, [], ◌∷◌, some, arith, length, length-set,
  length-replicate,
}
use pack_service.AsyncLogger.{
  AsyncLogger, AsyncLoggerConfig, Worker, waiting, writing, draining, drain_writing, broken, exited,
  new_async_logger, World, alive, start, Step, log_sent, log_handed, log_counted, log_dropped, work,
  stop_begins, stop_ends, Reach, here, next,
}
use pack_service.AsyncLogger.Totals.{total}
use pack_service.AsyncLogger.Invariant.{in_hand, gone}
use pack_service.AsyncLogger.Steps.{Reach-IsSound}

module _ {E : Type 0} where
  -- The workers are always as many as at the start.
  Step-length : {v v' : World E} → Step v v' → length v'.workers ≡ length v.workers
  Step-length (log_sent e l q) = refl
  Step-length {v} (log_handed e i at_i b c) = length-set v.workers i (writing e)
  Step-length (log_counted n q) = refl
  Step-length (log_dropped e l q) = refl
  Step-length {v} (work i {q} at_i mv) = length-set v.workers i q
  Step-length (stop_begins l q) = refl
  Step-length (stop_ends l st all q) = refl

  new_async_logger-length :
      (cfg : AsyncLoggerConfig) (n : AsyncLogger E × List (Worker E))
      → new_async_logger true cfg ≡ some n
      → length n.1 ≡ cfg.num_workers
  unfolding new_async_logger
  new_async_logger-length cfg n e =
      ground (arith, length-replicate {A = Worker E} cfg.num_workers waiting)

  Reach-length :
      (cfg : AsyncLoggerConfig) (n : AsyncLogger E × List (Worker E)) {v : World E}
      → new_async_logger true cfg ≡ some n
      → Reach (start n) v
      → length v.workers ≡ cfg.num_workers
  Reach-length cfg n e here = new_async_logger-length cfg n e
  Reach-length cfg n e (next r st) = Step-length st ∙ Reach-length cfg n e r

  alive-add-gone : (ws : List (Worker E)) → total alive ws + total gone ws ≡ length ws
  alive-add-gone [] = refl
  alive-add-gone (waiting ∷ ws) = omega (arith, alive-add-gone ws)
  alive-add-gone (writing e ∷ ws) = omega (arith, alive-add-gone ws)
  alive-add-gone (draining ∷ ws) = omega (arith, alive-add-gone ws)
  alive-add-gone (drain_writing e ∷ ws) = omega (arith, alive-add-gone ws)
  alive-add-gone (broken ∷ ws) = omega (arith, alive-add-gone ws)
  alive-add-gone (exited ∷ ws) = omega (arith, alive-add-gone ws)

  -- Workers that have returned hold nothing.
  in_hand_nothing :
      (w : E → ℕ) (ws : List (Worker E)) → total alive ws ≡ 0 → total (in_hand w) ws ≡ 0
  in_hand_nothing w [] h = refl
  in_hand_nothing w (waiting ∷ ws) h = absurd (omega arith)
  in_hand_nothing w (writing e ∷ ws) h = absurd (omega arith)
  in_hand_nothing w (draining ∷ ws) h = absurd (omega arith)
  in_hand_nothing w (drain_writing e ∷ ws) h = absurd (omega arith)
  in_hand_nothing w (broken ∷ ws) h = absurd (omega arith)
  in_hand_nothing w (exited ∷ ws) h = omega (arith, in_hand_nothing w ws (omega arith))

  -- Once `Stop` has returned, for a logger with a worker: every entry that was taken was given to
  -- the logging service, as often as it was taken, or is still in the channel; those in the channel
  -- are no more than the entries that were taken after `Stop` had begun.
  pub stop_complete :
      (cfg : AsyncLoggerConfig) (n : AsyncLogger E × List (Worker E)) (v : World E)
      → new_async_logger true cfg ≡ some n
      → Reach (start n) v
      → 0 < cfg.num_workers
      → v.logger.closed ≡ true
      → ((w : E → ℕ) → total w v.accepted ≡ total w v.processed + total w v.logger.buffer)
        × (length v.logger.buffer ≤ v.late)
  stop_complete cfg n v e r some_worker c =
      let s = Reach-IsSound cfg n e r in
      let all = s.ends c in
      let size = Reach-length cfg n e r in
      let split = alive-add-gone v.workers in
      (
        λ w. omega (arith, s.kept w, in_hand_nothing w v.workers all),
        s.left (omega (arith, all, size, split)),
      )
