-- ===== src/AsyncLogger/Ends.antt =====
-- The workers come to an end once `Stop` has begun.
use pack_service.Base.{
  ℕ, suc, ◌+◌, ◌*◌, ◌≤◌, ◌<◌, ◌≡◌, refl, ◌∙◌, ap, ◌⊎◌, inl, inr, true, false, List, [], ◌∷◌, ◌++◌,
  some, arith, length, get_elem?, set, Bool-cases, ◌==◌,
}
use pack_service.AsyncLogger.{
  AsyncLogger, AsyncLoggerConfig, Worker, waiting, writing, draining, drain_writing, broken, exited,
  new_async_logger, write_entry, Move, receive, return_closed, turn, write, drain, drain_closed,
  drain_write, finish, World, alive, start, work, Reach, next,
}
use pack_service.AsyncLogger.Totals.{total, total-set, total-get_elem?-le}
use pack_service.AsyncLogger.Invariant.{is_broken, IsSound}
use pack_service.AsyncLogger.Workers.{Move-Counts}
use pack_service.AsyncLogger.Steps.{Reach-IsSound}

module _ {E : Type 0} where
  -- A worker has at most this many steps before it, with the entries that it holds.
  abbrev pub rank : Worker E → ℕ
  rank waiting = 2
  rank (writing e) = 3
  rank draining = 1
  rank (drain_writing e) = 2
  rank broken = 0
  rank exited = 0

  abbrev pub measure : World E → ℕ
  measure v = 2 * length v.logger.buffer + total rank v.workers

  -- A step of some worker, and a run of such steps.
  pub data Work (v : World E) : World E → Type 0 where
    worked :
        (i : ℕ) {p q : Worker E} {l : AsyncLogger E} {done : List E}
        → get_elem? v.workers i ≡ some p
        → Move v.logger p l q done
        → Work v
            (record v { logger = l; workers = set v.workers i q; processed = v.processed ++ done })

  pub data Works (v : World E) : ℕ → World E → Type 0 where
    rests : Works v 0 v
    goes : {n : ℕ} {u u' : World E} → Works v n u → Work u u' → Works v (suc n) u'

  Move-rank :
      {l l' : AsyncLogger E} {done : List E} {p q : Worker E}
      → Move l p l' q done
      → 2 * length l'.buffer + rank q < 2 * length l.buffer + rank p
  unfolding write_entry
  Move-rank (receive e rest b) = let k = ap length b in omega (arith, k)
  Move-rank (return_closed b c) = omega arith
  Move-rank (turn t) = omega arith
  Move-rank (write e true) = omega arith
  Move-rank (write e false) = omega arith
  Move-rank (drain e rest b) = let k = ap length b in omega (arith, k)
  Move-rank (drain_closed b c) = omega arith
  Move-rank (drain_write e true) = omega arith
  Move-rank (drain_write e false) = omega arith
  Move-rank (finish b c) = omega arith

  Work-measure : {v u : World E} → Work v u → measure u < measure v
  Work-measure {v} (worked i {p} {q} at_i mv) =
      omega (arith, Move-rank mv, total-set rank v.workers i p q at_i)

  Works-measure : {v u : World E} {n : ℕ} → Works v n u → n + measure u ≤ measure v
  Works-measure rests = omega arith
  Works-measure (goes r st) = omega (arith, Works-measure r, Work-measure st)

  Works-Reach : {w v u : World E} {n : ℕ} → Reach w v → Works v n u → Reach w u
  Works-Reach r rests = r
  Works-Reach r (goes ws (worked i at_i mv)) = next (Works-Reach r ws) (work i at_i mv)

  Work-stays :
      {v u : World E}
      → Work v u
      → (u.logger.stopped ≡ v.logger.stopped) × (u.logger.closed ≡ v.logger.closed)
  Work-stays (worked i at_i mv) = let c = Move-Counts mv in (c.stopped, c.closed)

  Works-stays :
      {v u : World E} {n : ℕ}
      → Works v n u
      → (u.logger.stopped ≡ v.logger.stopped) × (u.logger.closed ≡ v.logger.closed)
  Works-stays rests = (refl, refl)
  Works-stays (goes r st) = let a = Works-stays r in let b = Work-stays st in (b.0 ∙ a.0, b.1 ∙ a.1)

  List-cases : (xs : List E) → (xs ≡ []) ⊎ ((e : E) × (rest : List E) × (xs ≡ e ∷ rest))
  List-cases [] = inl refl
  List-cases (e ∷ rest) = inr (e, rest, refl)

  -- The worker `p` has a step before it.
  abbrev CanMove : AsyncLogger E → Worker E → Type 0
  CanMove l p = (l' : AsyncLogger E) × (q : Worker E) × (done : List E) × Move l p l' q done

  can_move :
      (l : AsyncLogger E) (p : Worker E)
      → l.stopped ≡ true
      → l.closed ≡ false
      → alive p ≡ 1
      → is_broken p ≡ 0
      → CanMove l p
  can_move l waiting st c a b = (l, draining, [], turn st)
  can_move l (writing e) st c a b = (write_entry l false, waiting, e ∷ [], write e false)
  can_move l draining st c a b = elim (List-cases l.buffer) [
    | inl empty ↦ (l, exited, [], finish empty c)
    | inr (e, rest, more) ↦ (record l { buffer = rest }, drain_writing e, [], drain e rest more)
  ]
  can_move l (drain_writing e) st c a b =
      (write_entry l false, draining, e ∷ [], drain_write e false)
  can_move l broken st c a b = absurd (omega arith)
  can_move l exited st c a b = absurd (omega arith)

  an_alive_one :
      (ws : List (Worker E))
      → 0 < total alive ws
      → (i : ℕ) × (p : Worker E) × (get_elem? ws i ≡ some p) × (alive p ≡ 1)
  an_alive_one [] h = absurd (omega arith)
  an_alive_one (waiting ∷ ws) h = (0, waiting, refl, refl)
  an_alive_one (writing e ∷ ws) h = (0, writing e, refl, refl)
  an_alive_one (draining ∷ ws) h = (0, draining, refl, refl)
  an_alive_one (drain_writing e ∷ ws) h = (0, drain_writing e, refl, refl)
  an_alive_one (broken ∷ ws) h = (0, broken, refl, refl)
  an_alive_one (exited ∷ ws) h =
      let (i, p, at_i, a) = an_alive_one ws (omega (arith, h)) in (suc i, p, at_i, a)

  -- All workers have returned, or some worker has a step before it.
  abbrev pub IsDoneOrWorks : World E → Type 0
  IsDoneOrWorks v = (total alive v.workers ≡ 0) ⊎ ((u : World E) × Work v u)

  progress :
      (v : World E)
      → IsSound v
      → v.logger.stopped ≡ true
      → v.logger.closed ≡ false
      → IsDoneOrWorks v
  progress v s st c = elim (Bool-cases (total alive v.workers == 0)) [
    | inl all ↦ inl (ground arith)
    | inr some_left ↦
        let (i, p, at_i, a) = an_alive_one v.workers (ground arith) in
        let b : is_broken p ≡ 0 =
          omega (arith, s.whole, total-get_elem?-le is_broken v.workers i p at_i) in
        let (l', q, done, mv) = can_move v.logger p st c a b in inr (_, worked i at_i mv)
  ]

  -- Once `Stop` has begun: a run of the workers, in whatever order they go and whether their writes
  -- fail or not, has at most as many steps as the measure of the world, and it can go on unless all
  -- workers have returned. So `wg.Wait()` comes to an end.
  pub stop-terminates :
      (cfg : AsyncLoggerConfig) (n : AsyncLogger E × List (Worker E)) (v u : World E) (steps : ℕ)
      → new_async_logger true cfg ≡ some n
      → Reach (start n) v
      → v.logger.stopped ≡ true
      → v.logger.closed ≡ false
      → Works v steps u
      → (steps ≤ measure v) × IsDoneOrWorks u
  stop-terminates cfg n v u steps e r st c ws =
      let s = Reach-IsSound cfg n e (Works-Reach r ws) in
      let (same_stop, same_close) = Works-stays ws in
      (omega (arith, Works-measure ws), progress u s (same_stop ∙ st) (same_close ∙ c))
