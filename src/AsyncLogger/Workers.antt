-- ===== src/AsyncLogger/Workers.antt =====
-- A step of a worker: what it does to the logger, and that it keeps the invariant.
use pack_service.Base.{
  ℕ, ◌+◌, ◌≤◌, ◌≡◌, refl, sym, ◌∙◌, ap, ◌⊎◌, inl, inr, true, false, List, [], ◌++◌, some, arith,
  length, length-append, get_elem?, set, Bool-cases,
}
use pack_service.AsyncLogger.{
  AsyncLogger, Worker, waiting, writing, draining, drain_writing, broken, exited, write_entry, Move,
  receive, return_closed, turn, write, drain, drain_closed, drain_write, finish, World, alive,
}
use pack_service.AsyncLogger.Totals.{total, total-append, total-set, total-get_elem?-le}
use pack_service.AsyncLogger.Invariant.{in_hand, gone, is_broken, turned, IsSound}

module _ {E : Type 0} where
  -- What a step of a worker does to the logger and to the worker, whatever the others do.
  pub Move-kept :
      {l l' : AsyncLogger E} {done : List E} {p q : Worker E} (w : E → ℕ)
      → Move l p l' q done
      → total w l.buffer + in_hand w p ≡ total w l'.buffer + in_hand w q + total w done
  unfolding write_entry
  Move-kept w (receive e rest b) = rw b (omega arith)
  Move-kept w (return_closed b c) = omega arith
  Move-kept w (turn t) = omega arith
  Move-kept w (write e true) = omega arith
  Move-kept w (write e false) = omega arith
  Move-kept w (drain e rest b) = rw b (omega arith)
  Move-kept w (drain_closed b c) = omega arith
  Move-kept w (drain_write e true) = omega arith
  Move-kept w (drain_write e false) = omega arith
  Move-kept w (finish b c) = omega arith

  -- What stays, and the counters.
  pub record Counts (l l' : AsyncLogger E) (done : List E) : Type 0 where
    pub shorter : length l'.buffer ≤ length l.buffer
    pub capacity : l'.capacity ≡ l.capacity
    pub stopped : l'.stopped ≡ l.stopped
    pub closed : l'.closed ≡ l.closed
    pub enqueued : l'.enqueued ≡ l.enqueued
    pub dropped : l'.dropped ≡ l.dropped
    pub answered : l'.written + l'.errors ≡ l.written + l.errors + length done

  pub Move-Counts :
      {l l' : AsyncLogger E} {done : List E} {p q : Worker E}
      → Move l p l' q done
      → Counts l l' done
  unfolding write_entry
  Move-Counts (receive e rest b) = let k = ap length b in ground (arith, k)
  Move-Counts (drain e rest b) = let k = ap length b in ground (arith, k)
  Move-Counts (write e true) = ground arith
  Move-Counts (write e false) = ground arith
  Move-Counts (drain_write e true) = ground arith
  Move-Counts (drain_write e false) = ground arith
  Move-Counts _ = ground arith

  -- A worker turns only after `Stop` has begun, returns only where the channel is empty, and breaks
  -- only where it is closed.
  pub record Turns (l : AsyncLogger E) (p q : Worker E) : Type 0 where
    pub runs : alive p ≡ 1
    pub turns : l.stopped ≡ false → l.closed ≡ false → turned q ≡ turned p
    pub leaves : gone q ≡ 1 → l.closed ≡ false → l.buffer ≡ []
    pub breaks : l.closed ≡ false → is_broken q ≡ 0
    pub fewer : gone p ≡ 0

  Move-Turns :
      {l l' : AsyncLogger E} {done : List E} {p q : Worker E} → Move l p l' q done → Turns l p q
  Move-Turns (receive e rest b) = ground arith
  Move-Turns (return_closed b c) = ground arith
  Move-Turns (turn t) = ground arith
  Move-Turns (write e f) = ground arith
  Move-Turns (drain e rest b) = ground arith
  Move-Turns (drain_closed b c) = ground arith
  Move-Turns (drain_write e f) = ground arith
  Move-Turns (finish b c) = ground arith

  gone-cases : (p : Worker E) → (gone p ≡ 0) ⊎ (gone p ≡ 1)
  gone-cases exited = inr refl
  gone-cases waiting = inl refl
  gone-cases (writing e) = inl refl
  gone-cases draining = inl refl
  gone-cases (drain_writing e) = inl refl
  gone-cases broken = inl refl

  pub work-IsSound :
      (v : World E) (i : ℕ) {p q : Worker E} {l : AsyncLogger E} {done : List E}
      → get_elem? v.workers i ≡ some p
      → Move v.logger p l q done
      → IsSound v
      → IsSound
          (record v { logger = l; workers = set v.workers i q; processed = v.processed ++ done })
  work-IsSound v i {p} {q} {l} {done} at_i mv s =
      let c = Move-Counts mv in
      let t = Move-Turns mv in
      let moved = λ (w : Worker E → ℕ). total-set w v.workers i p q at_i in
      let not_closed : v.logger.closed ≡ false = elim (Bool-cases v.logger.closed) [
        | inl e ↦
            absurd (omega (arith, s.ends e, t.runs, total-get_elem?-le alive v.workers i p at_i))
        | inr e ↦ e
      ] in
      record {
        kept = λ w.
            omega
              (arith, s.kept w, Move-kept w mv, moved (in_hand w), total-append w v.processed done);
        counted = omega (arith, s.counted, c.enqueued);
        answered = omega (arith, s.answered, c.answered, length-append v.processed done);
        asked = omega (arith, s.asked, c.dropped);
        bounded = omega (arith, s.bounded, c.shorter, c.capacity);
        stops = λ h.
            let before : v.logger.stopped ≡ false = sym c.stopped ∙ h in
            let old = s.stops before in
            (omega (arith, old.0, moved turned, t.turns before not_closed), old.1);
        left = λ h. elim (gone-cases q) [
          | inl stays ↦
              let old = s.left (omega (arith, moved gone, stays, h)) in
              omega (arith, old, c.shorter)
          | inr leaves ↦
              let empty : length v.logger.buffer ≡ 0 = ap length (t.leaves leaves not_closed) in
              omega (arith, empty, c.shorter)
        ];
        ends = λ h. absurd (let same = c.closed in ground arith);
        whole = omega (arith, s.whole, moved is_broken, t.breaks not_closed);
      }
