-- ===== src/Breaker/Examples.antt =====
-- Runs of the circuit breaker, and each theorem of this part at an input.
use pack_service.Base.{◌+◌, ◌<◌, ◌≡◌, refl, ◌⊎◌, true, false, [], ◌∷◌, none, some, arith}
use pack_service.Breaker.{Config, Breaker, closed, open_state, half_open, new, admit, execute}
use pack_service.Breaker.Sequences.{execute_cases, run, run-opens, run-recovers}
use pack_service.Breaker.Interleaving.{
  World, initial, after_enter, after_leave, Reach, here, next, enter, leave, IsSafe, Reach-IsSafe,
  Moves, Step-Moves, half_open_unbounded,
}

abbrev config : Config
config = record { failure_threshold = 2; success_threshold = 2; timeout = 10 }

abbrev tripped : Breaker
tripped = record { state = open_state; failure_count = 2; success_count = 0; last_failure_time = 5 }

two_failures : run config true new ((1, 2) ∷ (3, 5) ∷ []) ≡ tripped
unfolding run execute new
two_failures = refl

execute_cases_example :
    ((tripped.state ≡ open_state)
      × (14 < tripped.last_failure_time + 10)
      × (execute config tripped 14 false 15 ≡ (tripped, none)))
    ⊎ ((¬ ((tripped.state ≡ open_state) × (14 < tripped.last_failure_time + 10)))
        × ((execute config tripped 14 false 15).1 ≡ some false))
execute_cases_example = execute_cases config tripped 14 15 false

run-opens_example :
    ((run config true new ((1, 2) ∷ [])).state ≡ closed)
    × ((execute config (run config true new ((1, 2) ∷ [])) 3 true 5).0.state ≡ open_state)
    × ((execute config (run config true new ((1, 2) ∷ [])) 3 true 5).0.last_failure_time ≡ 5)
unfolding new
run-opens_example = run-opens config new ((1, 2) ∷ []) 3 5 refl refl refl

run-recovers_example :
    let probed = run config false tripped ((15, 16) ∷ []) in
    let recovered = (execute config probed 17 false 18).0 in
    (probed.state ≡ half_open)
    × (recovered.state ≡ closed)
    × (recovered.failure_count ≡ 0)
    × (recovered.success_count ≡ 0)
run-recovers_example = run-recovers config tripped (15, 16) [] 17 18 refl (omega arith) refl

-- Two calls in flight, of which one has failed.
abbrev two_in_flight : World
two_in_flight = after_leave config (after_enter config (after_enter config initial)) 1 true

two_in_flight_reached : Reach config initial two_in_flight
unfolding admit new
two_in_flight_reached = next (next (next here (enter refl)) (enter refl)) (leave 1 true refl refl)

Reach-IsSafe_example : IsSafe config two_in_flight
Reach-IsSafe_example = Reach-IsSafe config (omega arith) (omega arith) two_in_flight_reached

Step-Moves_example : Moves config initial (after_enter config initial)
Step-Moves_example = Step-Moves config (enter refl)

abbrev waiting : World
waiting = record { breaker = tripped; in_flight = 0; clock = 15; failures = 2 }

half_open_unbounded_example :
    (v : World) × Reach config waiting v × (v.breaker.state ≡ half_open) × (v.in_flight ≡ 0 + 4)
half_open_unbounded_example = half_open_unbounded config 3 waiting refl (omega arith)
