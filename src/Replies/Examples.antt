-- ===== src/Replies/Examples.antt =====
-- Three responses from a pool of one body, two of them in Dutch.
use pack_service.Base.{ℕ, ◌≡◌, refl, List, [], ◌∷◌, map}
use pack_service.Text.{codes}
use pack_service.Replies.{
  blank_success, blank_error, Pools, Request, Call, success_of, error_of, message_of, run_call,
  run_calls,
}
use pack_service.Replies.Bodies.{AreBlank, body_of, run_calls-bodies}

abbrev same : ℕ → ℕ
same c = c

abbrev pools : Pools ℕ
pools = record { successes = []; errors = blank_error ∷ [] }

abbrev request : ℕ → Request
request n = record { request_id = "r"; accept_language = codes "nl-BE"; now = 5; pick = n }

abbrev calls : List (Call ℕ × Request)
calls =
    (error_of 409 "error.conflict", request 0)
    ∷ (success_of 200 7, request 0)
    ∷ (message_of 500 "disk full", request 3)
    ∷ []

run_calls-test :
    (run_calls same calls pools).0
    ≡ record { successes = blank_success ∷ []; errors = blank_error ∷ blank_error ∷ [] }
unfolding run_calls run_call
run_calls-test = refl

run_calls-bodies_example :
    ((run_calls same calls pools).1 ≡ map (body_of same) calls)
    × AreBlank (run_calls same calls pools).0
run_calls-bodies_example = run_calls-bodies same calls pools (tt, (refl, tt))
