-- ===== src/Breaker/Interleaving.antt =====
-- `Execute` called by many goroutines: the two critical sections of the calls in any order, with a
-- call's second section after its first.
use pack_service.Base.{
  ℕ, zero, suc, ◌+◌, ◌≤◌, ◌<◌, ◌≡◌, ◌≢◌, refl, sym, subst, Bool, true, false, arith,
}
use pack_service.Breaker.{Config, Breaker, closed, open_state, half_open, new, admit, settle}
use pack_service.Breaker.Invariant.{Inv, new-Inv, admit-Inv, settle-Inv}

-- The breaker, the calls whose function is running, the time, and the failures seen so far.
pub record World : Type 0 where
  pub breaker : Breaker
  pub in_flight : ℕ
  pub clock : ℕ
  pub failures : ℕ

abbrev pub one_if : Bool → ℕ
one_if true = 1
one_if false = 0

abbrev pub initial : World
initial = record { breaker = new; in_flight = 0; clock = 0; failures = 0 }

module _ (config : Config) where
  open config use {failure_threshold, success_threshold, timeout}

  abbrev pub after_enter : World → World
  after_enter w = record {
    breaker = (admit config w.breaker w.clock).0;
    in_flight = w.in_flight + one_if (admit config w.breaker w.clock).1;
    clock = w.clock;
    failures = w.failures;
  }

  abbrev pub after_leave : World → ℕ → Bool → World
  after_leave w rest failed = record {
    breaker = settle config w.breaker failed w.clock;
    in_flight = rest;
    clock = w.clock;
    failures = w.failures + one_if failed;
  }

  pub data Step (w v : World) : Type 0 where
    enter : v ≡ after_enter w → Step w v
    leave :
        (rest : ℕ) (failed : Bool)
        → w.in_flight ≡ suc rest
        → v ≡ after_leave w rest failed
        → Step w v
    tick : (n : ℕ) → v ≡ record w { clock = w.clock + n } → Step w v

  pub data Reach (w : World) : World → Type 0 where
    here : Reach w w
    next : {u v : World} → Reach w u → Step u v → Reach w v

  -- What holds of every reachable world.
  pub record IsSafe (w : World) : Type 0 where
    pub inv : Inv config w.breaker
    pub counted : w.breaker.failure_count ≤ w.failures + failure_threshold
    pub closed_counted : w.breaker.state ≡ closed → w.breaker.failure_count ≤ w.failures
    pub tripped : w.breaker.state ≢ closed → failure_threshold ≤ w.failures
    pub past : w.breaker.last_failure_time ≤ w.clock

  module _ (failures : 0 < failure_threshold) (successes : 0 < success_threshold) where
    enter-IsSafe : (w : World) → IsSafe w → IsSafe (after_enter w)
    unfolding admit
    enter-IsSafe w s = record {
      inv = admit-Inv config failures successes w.breaker w.clock s.inv;
      counted = ground arith;
      closed_counted = ground arith;
      tripped = ground arith;
      past = ground arith;
    }

    leave-IsSafe :
        (w : World) (rest : ℕ) (failed : Bool) → IsSafe w → IsSafe (after_leave w rest failed)
    unfolding settle
    leave-IsSafe w rest failed s = record {
      inv = settle-Inv config failures successes w.breaker failed w.clock s.inv;
      counted = ground arith;
      closed_counted = ground arith;
      tripped = ground arith;
      past = ground arith;
    }

    Step-IsSafe : (w v : World) → Step w v → IsSafe w → IsSafe v
    Step-IsSafe w v (enter e) s = subst IsSafe (sym e) (enter-IsSafe w s)
    Step-IsSafe w v (leave rest failed _ e) s = subst IsSafe (sym e) (leave-IsSafe w rest failed s)
    Step-IsSafe w v (tick n e) s = subst IsSafe (sym e) (record {
      inv = s.inv;
      counted = s.counted;
      closed_counted = s.closed_counted;
      tripped = s.tripped;
      past = omega (arith, s.past);
    })

    initial-IsSafe : IsSafe initial
    unfolding new
    initial-IsSafe = record {
      inv = new-Inv config failures successes;
      counted = omega arith;
      closed_counted = λ _. omega arith;
      tripped = λ h. absurd (h refl);
      past = omega arith;
    }

    -- With thresholds of 1 or more, in every world that any interleaving reaches: a closed breaker
    -- has counted fewer failures than their threshold and no successes, and a half-open one fewer
    -- successes than their threshold; the failures counted are at most those seen and the threshold
    -- together, and in the closed state at most those seen; the breaker has left the closed state
    -- only after as many failures as the threshold; and no failure lies in the future.
    pub Reach-IsSafe : {v : World} → Reach initial v → IsSafe v
    Reach-IsSafe here = initial-IsSafe
    Reach-IsSafe (next {u} {v} r st) = Step-IsSafe u v st (Reach-IsSafe r)

  -- The moves of the state, with what each of them needs.
  pub data Moves (w v : World) : Type 0 where
    stays : v.breaker.state ≡ w.breaker.state → Moves w v
    opens :
        w.breaker.state ≡ closed
        → v.breaker.state ≡ open_state
        → failure_threshold ≤ w.breaker.failure_count + 1
        → v.failures ≡ w.failures + 1
        → Moves w v
    probes :
        w.breaker.state ≡ open_state
        → v.breaker.state ≡ half_open
        → w.breaker.last_failure_time + timeout ≤ w.clock
        → Moves w v
    reopens :
        w.breaker.state ≡ half_open
        → v.breaker.state ≡ open_state
        → v.failures ≡ w.failures + 1
        → Moves w v
    recovers :
        w.breaker.state ≡ half_open
        → v.breaker.state ≡ closed
        → success_threshold ≤ w.breaker.success_count + 1
        → v.failures ≡ w.failures
        → Moves w v

  enter-Moves : (w : World) → Moves w (after_enter w)
  unfolding admit
  enter-Moves w = grind (arith, stays, probes)

  leave-Moves : (w : World) (rest : ℕ) (failed : Bool) → Moves w (after_leave w rest failed)
  unfolding settle
  leave-Moves w rest failed = grind (arith, stays, opens, reopens, recovers)

  -- Every step of any interleaving moves the state along one of these edges: an open breaker is
  -- never closed directly, and only failures open one.
  pub Step-Moves : {w v : World} → Step w v → Moves w v
  Step-Moves {w} {v} (enter e) = subst (Moves w) (sym e) (enter-Moves w)
  Step-Moves {w} {v} (leave rest failed _ e) = subst (Moves w) (sym e) (leave-Moves w rest failed)
  Step-Moves {w} {v} (tick n e) = subst (Moves w) (sym e) (stays refl)

  Reach-trans : {w u v : World} → Reach w u → Reach u v → Reach w v
  Reach-trans a here = a
  Reach-trans a (next r st) = next (Reach-trans a r) st

  flood :
      (n : ℕ) (w : World)
      → w.breaker.state ≡ half_open
      → (v : World) × Reach w v × (v.breaker.state ≡ half_open) × (v.in_flight ≡ w.in_flight + n)
  unfolding admit
  flood zero w h = (w, here, h, omega arith)
  flood (suc n) w h =
      let half : (after_enter w).breaker.state ≡ half_open = ground arith in
      let more : (after_enter w).in_flight ≡ w.in_flight + 1 = ground arith in
      let (v, r, state, count) = flood n (after_enter w) half in
      (v, Reach-trans (next here (enter refl)) r, state, omega arith)

  -- Once the timeout of an open breaker has passed, any number of calls is let through at once:
  -- the half-open state does not count the probes in flight.
  pub half_open_unbounded :
      (n : ℕ) (w : World)
      → w.breaker.state ≡ open_state
      → w.breaker.last_failure_time + timeout ≤ w.clock
      → (v : World) × Reach w v
        × (v.breaker.state ≡ half_open)
        × (v.in_flight ≡ w.in_flight + suc n)
  unfolding admit
  half_open_unbounded n w o h =
      let half : (after_enter w).breaker.state ≡ half_open = ground arith in
      let more : (after_enter w).in_flight ≡ w.in_flight + 1 = ground arith in
      let (v, r, state, count) = flood n (after_enter w) half in
      (v, Reach-trans (next here (enter refl)) r, state, omega arith)
