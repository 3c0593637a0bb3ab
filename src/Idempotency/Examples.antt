-- ===== src/Idempotency/Examples.antt =====
-- Runs of the middleware, and its theorem at an input.
use Prim.Native.Char.{code}
use Prim.Native.String.{String}
use pack_service.Base.{ℕ, ◌+◌, ◌≡◌, refl, ap, true, List, [], ◌∷◌, none, some, arith, All}
use pack_service.Base.Int.{pos, pos_part}
use pack_service.Base.Machine.{int64, sub_int}
use pack_service.Base.Dict.{int_eq, string_eq, lookup, put, remove_if}
use pack_service.Idempotency.{
  CachedResponse, IdempotencyCache, new_idempotency_cache, get_response, set_response,
  cleanup_responses, Request, hashed, key_from, generate_cache_key, applies, is_success, handled,
  replayed, idempotency,
}
use pack_service.Idempotency.Replay.{
  Event, cleaning, serving, run_events, IsApart, idempotency-replays,
}

program : Unit {0}
unfolding get_response set_response cleanup_responses hashed key_from generate_cache_key applies
    is_success idempotency run_events lookup put remove_if int64 sub_int
program = tt

-- A digest of one byte, the first of the text.
abbrev digest : String → List ℕ
digest String.[] = []
digest (String.◌∷◌ c s) = code c ∷ []

abbrev order : Request
order = record { idempotency_key = "a"; method = "POST"; path = "/api/calculate"; body = some "{}" }

abbrev other_order : Request
other_order = record order { idempotency_key = "b" }

-- The handlers count the calls.
abbrev counting : ℕ → ℕ × CachedResponse
counting n = (n + 1, record { status_code = pos 200; headers = []; body = "ok"; timestamp = 0 })

abbrev empty_cache : IdempotencyCache
empty_cache = new_idempotency_cache 300

abbrev events : List (Event ℕ)
events = serving other_order counting 3 4 ∷ cleaning 200 ∷ []

counted_twice :
    (let first = idempotency digest (empty_cache, 0) order counting 1 2 in
      (run_events digest (first.0, first.1) events).1)
    ≡ 2
unfolding program
counted_twice = refl

on : applies order ≡ true
unfolding program
on = refl

miss : get_response empty_cache (generate_cache_key digest order) 1 ≡ none
unfolding program
miss = refl

good : is_success (counting 0).1 ≡ true
unfolding program
good = refl

events-IsApart : All (IsApart digest (generate_cache_key digest order) (2 + 300)) events
unfolding program
events-IsApart =
    ((λ e. (let q : 98 ≡ 97 = ap pos_part e in absurd (omega (arith, q)))), (omega arith, tt))

idempotency-replays_example :
    let first = idempotency digest (empty_cache, 0) order counting 1 2 in
    let between = run_events digest (first.0, first.1) events in
    (first.2 ≡ handled (counting 0).1)
    × (idempotency digest between order counting 302 303
        ≡ (between.0, between.1, replayed (record (counting 0).1 { timestamp = 2 })))
idempotency-replays_example =
    idempotency-replays digest empty_cache 0 order counting counting 1 2 302 303 events tt on miss
      good events-IsApart (omega arith)
