-- ===== src/AsyncLogger/Invariant.antt =====
-- What holds of the asynchronous logger in every world that it reaches.
use pack_service.Base.{ℕ, ◌+◌, ◌≤◌, ◌<◌, ◌≡◌, true, false, length}
use pack_service.AsyncLogger.{
  Worker, writing, draining, drain_writing, broken, exited, World, alive,
}
use pack_service.AsyncLogger.Totals.{total}

module _ {E : Type 0} where
  -- What a worker has in its hands, by the weight of an entry.
  abbrev pub in_hand : (E → ℕ) → Worker E → ℕ
  in_hand w (writing e) = w e
  in_hand w (drain_writing e) = w e
  in_hand w _ = 0

  -- A worker that has returned, and one that must not be.
  abbrev pub gone : Worker E → ℕ
  gone exited = 1
  gone _ = 0

  abbrev pub is_broken : Worker E → ℕ
  is_broken broken = 1
  is_broken _ = 0

  -- A worker that has read `stopCh`.
  abbrev pub turned : Worker E → ℕ
  turned draining = 1
  turned (drain_writing e) = 1
  turned exited = 1
  turned _ = 0

  -- `kept` is about every weight of the entries: the entries taken, with how often each was, are
  -- those in the channel, in the hands of the workers and given to the logging service.
  pub record IsSound (v : World E) : Type 0 where
    pub kept :
        (w : E → ℕ)
        → total w v.accepted
          ≡ total w v.logger.buffer + total (in_hand w) v.workers + total w v.processed
    pub counted : v.logger.enqueued + v.sending ≡ length v.accepted
    pub answered : v.logger.written + v.logger.errors ≡ length v.processed
    pub asked : v.asked ≡ length v.accepted + v.logger.dropped
    pub bounded : length v.logger.buffer ≤ v.logger.capacity
    pub stops : v.logger.stopped ≡ false → (total turned v.workers ≡ 0) × (v.late ≡ 0)
    pub left : 0 < total gone v.workers → length v.logger.buffer ≤ v.late
    pub ends : v.logger.closed ≡ true → total alive v.workers ≡ 0
    pub whole : total is_broken v.workers ≡ 0
