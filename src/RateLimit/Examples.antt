-- ===== src/RateLimit/Examples.antt =====
-- Runs of the rate limiter, and each theorem of this part at an input.
use pack_service.Base.{◌≡◌, refl, List, [], ◌∷◌, arith, min}
use pack_service.Base.{returns, ◌>>=◌, Returns}
use pack_service.Base.Int.{pos}
use pack_service.Base.Machine.{sub_int}
use pack_service.Base.Dict.{lookup, put, remove_if}
use pack_service.RateLimit.{
  Limiter, new_limiter, fnv32a, shard_index, visit, check_rate_limit, cleanup_expired, rate_limit,
}
use pack_service.RateLimit.Visits.{kept, visitor_of, IsSound, IsChecked, check_rate_limit-IsChecked}
use pack_service.RateLimit.Cleanup.{cleanup_transparent}
use pack_service.RateLimit.Budget.{Event, request, cleanup, requests, run, run-window}

program : Unit {0}
unfolding new_limiter fnv32a shard_index visit check_rate_limit cleanup_expired rate_limit lookup
    put remove_if visitor_of requests run sub_int
program = tt

-- The published test vector of FNV-1a.
hash_of_a : fnv32a "a" ≡ 0xe40c292c
unfolding fnv32a
hash_of_a = refl

abbrev two_a_window : Limiter
two_a_window = record { shards = [] ∷ [] ∷ [] ∷ []; num_shards = 3; rate = pos 2; window = 10 }

two_a_window-IsSound : IsSound two_a_window
two_a_window-IsSound = record {
  shard_count = refl;
  some_shard = omega arith;
  few_shards = omega arith;
  distinct = (tt, (tt, (tt, tt)));
}

abbrev events : List Event
events =
    request "ip:2" 1
    ∷ request "ip:1" 2
    ∷ cleanup 3
    ∷ request "ip:1" 4
    ∷ request "ip:2" 5
    ∷ request "ip:1" 10
    ∷ []

counted : (run "ip:1" two_a_window (request "ip:1" 0 ∷ events) >>= λ r. returns r.1) ≡ returns 2
unfolding program
counted = refl

run-window_example :
    Returns (λ r. r.1 ≡ min 4 2) (run "ip:1" two_a_window (request "ip:1" 0 ∷ events))
unfolding program
run-window_example =
    run-window "ip:1" two_a_window 0 1 events two_a_window-IsSound refl (omega arith) refl
      (omega arith)

check_rate_limit-IsChecked_example :
    Returns (IsChecked two_a_window "ip:1" 7) (check_rate_limit two_a_window "ip:1" 7)
check_rate_limit-IsChecked_example =
    check_rate_limit-IsChecked two_a_window "ip:1" 7 two_a_window-IsSound

cleanup_transparent_example :
    let cleaned = visitor_of (cleanup_expired two_a_window 30) "ip:1" in
    let before = visit (pos 2) 10 31 (visitor_of two_a_window "ip:1") in
    let after = visit (pos 2) 10 31 cleaned in
    (after ≡ before) × (kept after.0 cleaned ≡ kept before.0 (visitor_of two_a_window "ip:1"))
cleanup_transparent_example =
    cleanup_transparent two_a_window 30 "ip:1" 31 two_a_window-IsSound (omega arith)
