-- ===== src/AsyncLogger/Steps.antt =====
-- The other steps, of the calls of `Log` and of `Stop`, and all that reach a world.
use pack_service.Base.{
  ℕ, suc, ◌+◌, ◌≤◌, ◌<◌, ◌≡◌, refl, sym, ap, subst, inl, inr, true, false, List, [], ◌∷◌, ◌++◌,
  some, arith, length, length-append, get_elem?, set, replicate, Bool-cases, returns,
}
use pack_service.AsyncLogger.{
  AsyncLogger, AsyncLoggerConfig, Worker, waiting, writing, draining, drain_writing, broken, exited,
  new_async_logger, send, count_sent, close_stop, close_entries, World, one_if, alive, start, took,
  Step, log_sent, log_handed, log_counted, log_dropped, work, stop_begins, stop_ends, Reach, here,
  next,
}
use pack_service.AsyncLogger.Totals.{total, total-append, total-set, total-replicate_zero, total-le}
use pack_service.AsyncLogger.Invariant.{in_hand, gone, is_broken, turned, IsSound}
use pack_service.AsyncLogger.Workers.{work-IsSound}

module _ {E : Type 0} where
  send-true :
      (l l' : AsyncLogger E) (e : E)
      → send l e ≡ returns (l', true)
      → (l.closed ≡ false)
        × (length l.buffer < l.capacity)
        × (l' ≡ record l { buffer = l.buffer ++ e ∷ [] })
  unfolding send
  send-true l l' e q = ground arith

  send-false :
      (l l' : AsyncLogger E) (e : E)
      → send l e ≡ returns (l', false)
      → (l.capacity ≤ length l.buffer) × (l' ≡ l)
  unfolding send
  send-false l l' e q = ground arith

  close_stop_lem :
      (l l' : AsyncLogger E)
      → close_stop l ≡ returns l'
      → (l.stopped ≡ false) × (l' ≡ record l { stopped = true })
  unfolding close_stop
  close_stop_lem l l' q = ground arith

  close_entries_lem :
      (l l' : AsyncLogger E)
      → close_entries l ≡ returns l'
      → (l.closed ≡ false) × (l' ≡ record l { closed = true })
  unfolding close_entries
  close_entries_lem l l' q = ground arith

  gone-le-turned : (ws : List (Worker E)) → total gone ws ≤ total turned ws
  gone-le-turned = total-le gone turned one
    where
      one : (p : Worker E) → gone p ≤ turned p
      one waiting = omega arith
      one (writing e) = omega arith
      one draining = omega arith
      one (drain_writing e) = omega arith
      one broken = omega arith
      one exited = omega arith

  -- Before `Stop` no worker has returned.
  stopped_of_gone : (v : World E) → IsSound v → 0 < total gone v.workers → v.logger.stopped ≡ true
  stopped_of_gone v s h = elim (Bool-cases v.logger.stopped) [
    | inl q ↦ q
    | inr q ↦ absurd (omega (arith, (s.stops q).0, gone-le-turned v.workers))
  ]

  took-IsSound :
      (v : World E) (e : E)
      → length v.logger.buffer < v.logger.capacity
      → IsSound v
      → IsSound (took v e (record v.logger { buffer = v.logger.buffer ++ e ∷ [] }) v.workers)
  took-IsSound v e room s =
      let one = length-append v.logger.buffer (e ∷ []) in
      let more = length-append v.accepted (e ∷ []) in
      record {
        kept = λ w. omega (
          arith,
          s.kept w,
          total-append w v.accepted (e ∷ []),
          total-append w v.logger.buffer (e ∷ []),
        );
        counted = omega (arith, s.counted, more);
        answered = s.answered;
        asked = omega (arith, s.asked, more);
        bounded = omega (arith, one);
        stops = λ h. (let k = s.stops h in ground (arith, k, s.ends));
        left = λ h.
            let k = s.left h in
            let late : one_if v.logger.stopped ≡ 1 = ap one_if (stopped_of_gone v s h) in
            omega (arith, k, late, one);
        ends = s.ends;
        whole = s.whole;
      }

  handed-IsSound :
      (v : World E) (e : E) (i : ℕ)
      → get_elem? v.workers i ≡ some waiting
      → v.logger.closed ≡ false
      → IsSound v
      → IsSound (took v e v.logger (set v.workers i (writing e)))
  handed-IsSound v e i at_i not_closed s =
      let moved = λ (w : Worker E → ℕ). total-set w v.workers i waiting (writing e) at_i in
      let more = length-append v.accepted (e ∷ []) in
      record {
        kept = λ w. omega (arith, s.kept w, moved (in_hand w), total-append w v.accepted (e ∷ []));
        counted = omega (arith, s.counted, more);
        answered = s.answered;
        asked = omega (arith, s.asked, more);
        bounded = s.bounded;
        stops = λ h.
            (let k = s.stops h in (omega (arith, k.0, moved turned), rw h (omega (arith, k.1))));
        left = λ h. (let k = s.left (omega (arith, h, moved gone)) in omega (arith, k));
        ends = λ h. absurd (ground arith);
        whole = omega (arith, s.whole, moved is_broken);
      }

  counted-IsSound :
      (v : World E) (n : ℕ)
      → v.sending ≡ suc n
      → IsSound v
      → IsSound (record v { sending = n; logger = count_sent v.logger true })
  unfolding count_sent
  counted-IsSound v n q s = record {
    kept = s.kept;
    counted = omega (arith, s.counted, q);
    answered = s.answered;
    asked = s.asked;
    bounded = s.bounded;
    stops = s.stops;
    left = s.left;
    ends = s.ends;
    whole = s.whole;
  }

  dropped-IsSound :
      (v : World E)
      → IsSound v
      → IsSound (record v { logger = count_sent v.logger false; asked = v.asked + 1 })
  unfolding count_sent
  dropped-IsSound v s = record {
    kept = s.kept;
    counted = s.counted;
    answered = s.answered;
    asked = omega (arith, s.asked);
    bounded = s.bounded;
    stops = s.stops;
    left = s.left;
    ends = s.ends;
    whole = s.whole;
  }

  stopped-IsSound :
      (v : World E) → IsSound v → IsSound (record v { logger = record v.logger { stopped = true } })
  stopped-IsSound v s = record {
    kept = s.kept;
    counted = s.counted;
    answered = s.answered;
    asked = s.asked;
    bounded = s.bounded;
    stops = λ h. cc;
    left = s.left;
    ends = s.ends;
    whole = s.whole;
  }

  closed-IsSound :
      (v : World E)
      → total alive v.workers ≡ 0
      → IsSound v
      → IsSound (record v { logger = record v.logger { closed = true } })
  closed-IsSound v all s = record {
    kept = s.kept;
    counted = s.counted;
    answered = s.answered;
    asked = s.asked;
    bounded = s.bounded;
    stops = s.stops;
    left = s.left;
    ends = λ h. all;
    whole = s.whole;
  }

  Step-IsSound : (v v' : World E) → Step v v' → IsSound v → IsSound v'
  Step-IsSound v v' (log_sent e l q) s =
      let (not_closed, room, l_eq) = send-true v.logger l e q in
      subst (λ x. IsSound (took v e x v.workers)) (sym l_eq) (took-IsSound v e room s)
  Step-IsSound v v' (log_handed e i at_i b c) s = handed-IsSound v e i at_i c s
  Step-IsSound v v' (log_counted n q) s = counted-IsSound v n q s
  Step-IsSound v v' (log_dropped e l q) s =
      subst (λ x. IsSound (record v { logger = count_sent x false; asked = v.asked + 1 }))
        (sym (send-false v.logger l e q).1) (dropped-IsSound v s)
  Step-IsSound v v' (work i at_i mv) s = work-IsSound v i at_i mv s
  Step-IsSound v v' (stop_begins l q) s =
      subst (λ x. IsSound (record v { logger = x })) (sym (close_stop_lem v.logger l q).1)
        (stopped-IsSound v s)
  Step-IsSound v v' (stop_ends l st all q) s =
      subst (λ x. IsSound (record v { logger = x })) (sym (close_entries_lem v.logger l q).1)
        (closed-IsSound v all s)

  abbrev fresh : AsyncLoggerConfig → World E
  fresh cfg = start (
    record {
      buffer = [];
      capacity = cfg.buffer_size;
      stopped = false;
      closed = false;
      enqueued = 0;
      dropped = 0;
      written = 0;
      errors = 0;
    },
    replicate cfg.num_workers waiting,
  )

  fresh-IsSound : (cfg : AsyncLoggerConfig) → IsSound (fresh cfg)
  fresh-IsSound cfg =
      let none_at = λ (w : Worker E → ℕ) (e : w waiting ≡ 0).
        total-replicate_zero w cfg.num_workers waiting e in
      record {
        kept = λ w. omega (arith, none_at (in_hand w) refl);
        counted = refl;
        answered = refl;
        asked = refl;
        bounded = omega arith;
        stops = λ h. (none_at turned refl, refl);
        left = λ h. absurd (omega (arith, h, none_at gone refl));
        ends = λ h. cc;
        whole = none_at is_broken refl;
      }

  new_async_logger_lem :
      (cfg : AsyncLoggerConfig) (n : AsyncLogger E × List (Worker E))
      → new_async_logger true cfg ≡ some n
      → start n ≡ fresh cfg
  unfolding new_async_logger
  new_async_logger_lem cfg n e = ground arith

  pub Reach-IsSound :
      (cfg : AsyncLoggerConfig) (n : AsyncLogger E × List (Worker E)) {v : World E}
      → new_async_logger true cfg ≡ some n
      → Reach (start n) v
      → IsSound v
  Reach-IsSound cfg n e here =
      subst IsSound (sym (new_async_logger_lem cfg n e)) (fresh-IsSound cfg)
  Reach-IsSound cfg n e (next {u} {v} r st) = Step-IsSound u v st (Reach-IsSound cfg n e r)
