-- ===== src/Breaker/Sequences.antt =====
-- `Execute` called again and again, with no other call in between: the breaker opens, refuses,
-- probes and recovers.
use pack_service.Base.{
  ℕ, ◌+◌, ◌≤◌, ◌<◌, ◌≡◌, ◌↔◌, ◌⊎◌, inl, inr, Bool, true, false, List, [], ◌∷◌, Option, none, some,
  arith, length, Option-cases, ap, if◌then◌else◌, ◌∙◌,
}
use pack_service.Breaker.{Config, Breaker, closed, open_state, half_open, execute}

-- A call: when it starts and when it ends.
abbrev pub Call : Type 0
Call = ℕ × ℕ

module _ (config : Config) where
  open config use {failure_threshold, success_threshold, timeout}

  execute-refuses :
      (b : Breaker) (now later : ℕ) (failed : Bool)
      → ((execute config b now failed later).1 ≡ none
          ↔ ((b.state ≡ open_state) × (now < b.last_failure_time + timeout)))
        × ((execute config b now failed later).1 ≡ none → (execute config b now failed later).0 ≡ b)
  unfolding execute
  execute-refuses b now later failed = ((λ h. ground arith, λ h. ground arith), λ h. ground arith)

  returns_own :
      (admitted : Bool) (u v : Breaker) (failed x : Bool)
      → (let r : Breaker × Option Bool = if admitted then (u, some failed) else (v, none) in r).1
        ≡ some x
      → x ≡ failed
  returns_own true u v failed x e = ground arith
  returns_own false u v failed x e = absurd (ground arith)

  -- Every call is of one of two kinds. While the breaker is open and the timeout has not passed
  -- since the last failure, the call is refused and leaves the breaker as it was. In every other
  -- case the function runs, and its own outcome is returned.
  pub execute_cases :
      (b : Breaker) (now later : ℕ) (failed : Bool)
      → ((b.state ≡ open_state)
          × (now < b.last_failure_time + timeout)
          × (execute config b now failed later ≡ (b, none)))
        ⊎ ((¬ ((b.state ≡ open_state) × (now < b.last_failure_time + timeout)))
            × ((execute config b now failed later).1 ≡ some failed))
  unfolding execute
  execute_cases b now later failed =
      let r = execute config b now failed later in
      let (refused, same) = execute-refuses b now later failed in
      elim (Option-cases (execute config b now failed later).1) [
        | inl e ↦ (let (o, h) = refused.0 e in inl (o, h, λ i. (same e i, e i)))
        | inr (x, e) ↦ inr (
          (λ c. (let none_left = refused.1 c in ground arith)),
          e ∙ ap some (returns_own _ _ _ failed x e),
        )
      ]

  -- The calls, each of which fails or each of which succeeds.
  unfoldable pub run : Bool → Breaker → List Call → Breaker
  run failed b [] = b
  run failed b ((now, later) ∷ calls) = run failed (execute config b now failed later).0 calls

  failure_step :
      (b : Breaker) (now later : ℕ)
      → b.state ≡ closed
      → b.failure_count + 1 < failure_threshold
      → ((execute config b now true later).0.state ≡ closed)
        × ((execute config b now true later).0.failure_count ≡ b.failure_count + 1)
  unfolding execute
  failure_step b now later c h = ground arith

  failure_last :
      (b : Breaker) (now later : ℕ)
      → b.state ≡ closed
      → b.failure_count + 1 ≡ failure_threshold
      → ((execute config b now true later).0.state ≡ open_state)
        × ((execute config b now true later).0.failure_count ≡ failure_threshold)
        × ((execute config b now true later).0.last_failure_time ≡ later)
  unfolding execute
  failure_last b now later c h = ground arith

  run_failures :
      (calls : List Call) (b : Breaker)
      → b.state ≡ closed
      → b.failure_count + length calls < failure_threshold
      → ((run true b calls).state ≡ closed)
        × ((run true b calls).failure_count ≡ b.failure_count + length calls)
  unfolding run
  run_failures [] b c h = (c, omega arith)
  run_failures ((now, later) ∷ calls) b c h =
      let (still, counted) = failure_step b now later c (omega arith) in
      let (s, n) = run_failures calls (execute config b now true later).0 still (omega arith) in
      (s, omega arith)

  -- A closed breaker with no failures counted stays closed while fewer calls than the threshold
  -- fail in a row, and the failure that reaches the threshold opens it at the time it ends.
  pub run-opens :
      (b : Breaker) (calls : List Call) (now later : ℕ)
      → b.state ≡ closed
      → b.failure_count ≡ 0
      → length calls + 1 ≡ failure_threshold
      → ((run true b calls).state ≡ closed)
        × ((execute config (run true b calls) now true later).0.state ≡ open_state)
        × ((execute config (run true b calls) now true later).0.last_failure_time ≡ later)
  run-opens b calls now later c z e =
      let (still, n) = run_failures calls b c (omega arith) in
      let last = failure_last (run true b calls) now later still (omega arith) in
      (still, last.0, last.2)

  success_step :
      (b : Breaker) (now later : ℕ)
      → b.state ≡ half_open
      → b.success_count + 1 < success_threshold
      → ((execute config b now false later).0.state ≡ half_open)
        × ((execute config b now false later).0.success_count ≡ b.success_count + 1)
  unfolding execute
  success_step b now later c h = ground arith

  success_last :
      (b : Breaker) (now later : ℕ)
      → b.state ≡ half_open
      → b.success_count + 1 ≡ success_threshold
      → ((execute config b now false later).0.state ≡ closed)
        × ((execute config b now false later).0.failure_count ≡ 0)
        × ((execute config b now false later).0.success_count ≡ 0)
  unfolding execute
  success_last b now later c h = ground arith

  run_successes :
      (calls : List Call) (b : Breaker)
      → b.state ≡ half_open
      → b.success_count + length calls < success_threshold
      → ((run false b calls).state ≡ half_open)
        × ((run false b calls).success_count ≡ b.success_count + length calls)
  unfolding run
  run_successes [] b c h = (c, omega arith)
  run_successes ((now, later) ∷ calls) b c h =
      let (still, counted) = success_step b now later c (omega arith) in
      let (s, n) = run_successes calls (execute config b now false later).0 still (omega arith) in
      (s, omega arith)

  probe :
      (b : Breaker) (now later : ℕ)
      → b.state ≡ open_state
      → b.last_failure_time + timeout ≤ now
      → 1 < success_threshold
      → ((execute config b now false later).0.state ≡ half_open)
        × ((execute config b now false later).0.success_count ≡ 1)
  unfolding execute
  probe b now later o h s = ground arith

  -- The success threshold is 2 or more: once the timeout has passed, an open breaker lets a call
  -- through, stays half-open while fewer
  -- calls than the threshold succeed, and is closed with its counts at 0 by the success that
  -- reaches the threshold.
  pub run-recovers :
      (b : Breaker) (first : Call) (calls : List Call) (now later : ℕ)
      → b.state ≡ open_state
      → b.last_failure_time + timeout ≤ first.0
      → length calls + 2 ≡ success_threshold
      → let probed = run false b (first ∷ calls) in
        let recovered = (execute config probed now false later).0 in
        (probed.state ≡ half_open)
        × (recovered.state ≡ closed)
        × (recovered.failure_count ≡ 0)
        × (recovered.success_count ≡ 0)
  unfolding run
  run-recovers b first calls now later o h e =
      let (half, one) = probe b first.0 first.1 o h (omega arith) in
      let (still, n) =
        run_successes calls (execute config b first.0 false first.1).0 half (omega arith) in
      let last =
        success_last (run false (execute config b first.0 false first.1).0 calls) now later still
          (omega arith) in
      (still, last.0, last.1, last.2)
