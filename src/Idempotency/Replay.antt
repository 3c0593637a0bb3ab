-- ===== src/Idempotency/Replay.antt =====
-- A request that is sent again: when its handlers do not run a second time.
use pack_service.Base.{
  ℕ, ◌+◌, ◌≤◌, ◌≡◌, ◌≢◌, refl, ap, ◌∙◌, inl, inr, true, false, Bool-cases, Option-cases, List, [],
  ◌∷◌, none, some, arith, All,
}
use pack_service.Base.Int.{ℤ, eq_ℤ_iff}
use pack_service.Base.Dict.{
  int_eq, ◌==◌, lookup, IsDistinct, lookup-put, put-IsDistinct, lookup-remove_if,
  remove_if-IsDistinct,
}
use Prim.Native.String.{String}
use pack_service.Idempotency.{
  CachedResponse, IdempotencyCache, is_old, get_response, set_response, cleanup_responses, Request,
  generate_cache_key, applies, is_success, handled, replayed, keep, idempotency,
}

-- What may happen to the cache between two requests: a cleanup, or another request.
pub data Event (S : Type 0) : Type 0 where
  cleaning : ℕ → Event S
  serving : Request → (S → S × CachedResponse) → ℕ → ℕ → Event S

-- The cache holds the response for the key.
record Holds (key : ℤ) (resp : CachedResponse) (ttl : ℕ) (c : IdempotencyCache) : Type 0 where
  distinct : IsDistinct c.items
  held : lookup key c.items ≡ some resp
  same : c.ttl ≡ ttl

module _ (key : ℤ) (resp : CachedResponse) (ttl : ℕ) where
  cleaning-Holds :
      (c : IdempotencyCache) (now : ℕ)
      → Holds key resp ttl c
      → now ≤ resp.timestamp + ttl
      → Holds key resp ttl (cleanup_responses c now)
  unfolding cleanup_responses
  cleaning-Holds c now h le =
      let test : is_old c.ttl now resp ≡ false = (let e = h.same in ground arith) in
      record {
        distinct = remove_if-IsDistinct (is_old c.ttl now) c.items h.distinct;
        held = lookup-remove_if (is_old c.ttl now) key c.items h.distinct ∙ rw (h.held, test) refl;
        same = h.same;
      }

  setting-Holds :
      (c : IdempotencyCache) (other : ℤ) (r : CachedResponse) (now : ℕ)
      → Holds key resp ttl c
      → other ≢ key
      → Holds key resp ttl (set_response c other r now)
  unfolding set_response
  setting-Holds c other r now h n = elim (Bool-cases (other == key)) [
    | inl same ↦ absurd (n ((eq_ℤ_iff other key).0 same))
    | inr apart ↦ record {
      distinct = put-IsDistinct other (record r { timestamp = now }) c.items h.distinct;
      held = lookup-put other key (record r { timestamp = now }) c.items ∙ rw apart h.held;
      same = h.same;
    }
  ]

  hit_lem :
      (c : IdempotencyCache) (now : ℕ)
      → Holds key resp ttl c
      → now ≤ resp.timestamp + ttl
      → get_response c key now ≡ some resp
  unfolding get_response
  hit_lem c now h le =
      let test : is_old c.ttl now resp ≡ false = (let e = h.same in ground arith) in
      rw (h.held, get_response, test) refl

set_response-Holds :
    (c : IdempotencyCache) (key : ℤ) (r : CachedResponse) (now : ℕ)
    → IsDistinct c.items
    → Holds key (record r { timestamp = now }) c.ttl (set_response c key r now)
unfolding set_response
set_response-Holds c key r now d =
    let self : (key == key) ≡ true = (eq_ℤ_iff key key).1 refl in
    record {
      distinct = put-IsDistinct key (record r { timestamp = now }) c.items d;
      held = lookup-put key key (record r { timestamp = now }) c.items ∙ rw self refl;
      same = refl;
    }

module _ {S : Type 0} (sha256 : String → List ℕ) where
  unfoldable pub run_events : IdempotencyCache × S → List (Event S) → IdempotencyCache × S
  run_events (c, s) [] = (c, s)
  run_events (c, s) (cleaning now ∷ es) = run_events (cleanup_responses c now, s) es
  run_events (c, s) (serving req next now later ∷ es) =
      let r = idempotency sha256 (c, s) req next now later in run_events (r.0, r.1) es

  -- Cleanups up to a time, and requests with another cache key
  abbrev pub IsApart : ℤ → ℕ → Event S → Type 0
  IsApart key until (cleaning now) = now ≤ until
  IsApart key until (serving req next now later) = generate_cache_key sha256 req ≢ key

  module _ (key : ℤ) (resp : CachedResponse) (ttl : ℕ) where
    keep-Holds :
        (c : IdempotencyCache) (other : ℤ) (r : S × CachedResponse) (later : ℕ)
        → Holds key resp ttl c
        → other ≢ key
        → Holds key resp ttl (keep sha256 c other r later).0
    keep-Holds c other r later h n = elim (Bool-cases (is_success r.1)) [
      | inl good ↦ rw good (setting-Holds key resp ttl c other r.1 later h n)
      | inr bad ↦ rw bad h
    ]

    serving-Holds :
        (c : IdempotencyCache) (s : S) (req : Request) (next : S → S × CachedResponse)
        (now later : ℕ)
        → Holds key resp ttl c
        → generate_cache_key sha256 req ≢ key
        → Holds key resp ttl (idempotency sha256 (c, s) req next now later).0
    unfolding idempotency
    serving-Holds c s req next now later h n = elim (Bool-cases (applies req)) [
      | inl on ↦ elim (Option-cases (get_response c (generate_cache_key sha256 req) now)) [
        | inl miss ↦
            rw (on, miss, idempotency)
              (keep-Holds c (generate_cache_key sha256 req) (next s) later h n)
        | inr (r, hit) ↦ rw (on, hit, idempotency) h
      ]
      | inr off ↦ rw (off, idempotency) h
    ]

    run_events-Holds :
        (es : List (Event S)) (c : IdempotencyCache) (s : S)
        → Holds key resp ttl c
        → All (IsApart key (resp.timestamp + ttl)) es
        → Holds key resp ttl (run_events (c, s) es).0
    unfolding run_events
    run_events-Holds [] c s h a = h
    run_events-Holds (cleaning now ∷ es) c s h a =
        run_events-Holds es (cleanup_responses c now) s (cleaning-Holds key resp ttl c now h a.0)
          a.1
    run_events-Holds (serving req next now later ∷ es) c s h a =
        run_events-Holds es _ _ (serving-Holds c s req next now later h a.0) a.1

    replay :
        (c : IdempotencyCache) (s : S) (req : Request) (next : S → S × CachedResponse)
        (now later : ℕ)
        → Holds key resp ttl c
        → generate_cache_key sha256 req ≡ key
        → applies req ≡ true
        → now ≤ resp.timestamp + ttl
        → idempotency sha256 (c, s) req next now later ≡ (c, s, replayed resp)
    unfolding idempotency
    replay c s req next now later h k on le =
        let found : get_response c (generate_cache_key sha256 req) now ≡ some resp =
          ap (λ k. get_response c k now) k ∙ hit_lem key resp ttl c now h le in
        rw (on, found, idempotency) refl

  -- The state after a request that was handled with success: its response is held.
  first_lem :
      (c : IdempotencyCache) (s : S) (req : Request) (next : S → S × CachedResponse) (now later : ℕ)
      → applies req ≡ true
      → get_response c (generate_cache_key sha256 req) now ≡ none
      → is_success (next s).1 ≡ true
      → idempotency sha256 (c, s) req next now later ≡ (
        set_response c (generate_cache_key sha256 req) (next s).1 later,
        (next s).0,
        handled (next s).1,
      )
  unfolding idempotency
  first_lem c s req next now later on miss good = rw (on, miss, idempotency, good) refl

  -- A POST, PUT or PATCH with an idempotency key for which the cache has nothing is handled, with
  -- success. If the same request comes again within the time to live, after any cleanups up to the
  -- end of this time and any requests with other cache keys, its handlers do not run: their state
  -- and the cache stay as they are, and the status, the headers and the body of the first response
  -- are sent again.
  pub idempotency-replays :
      (c : IdempotencyCache) (s : S) (req : Request) (next again : S → S × CachedResponse)
      (t1 t2 t3 t4 : ℕ) (es : List (Event S))
      → IsDistinct c.items
      → applies req ≡ true
      → get_response c (generate_cache_key sha256 req) t1 ≡ none
      → is_success (next s).1 ≡ true
      → All (IsApart (generate_cache_key sha256 req) (t2 + c.ttl)) es
      → t3 ≤ t2 + c.ttl
      → let first = idempotency sha256 (c, s) req next t1 t2 in
        let between = run_events (first.0, first.1) es in
        (first.2 ≡ handled (next s).1)
        × (idempotency sha256 between req again t3 t4
            ≡ (between.0, between.1, replayed (record (next s).1 { timestamp = t2 })))
  idempotency-replays c s req next again t1 t2 t3 t4 es distinct on miss good apart in_time =
      let key = generate_cache_key sha256 req in
      let resp : CachedResponse = record (next s).1 { timestamp = t2 } in
      let held = set_response-Holds c key (next s).1 t2 distinct in
      let after =
        run_events-Holds key resp c.ttl es (set_response c key (next s).1 t2) (next s).0 held
          apart in
      rw (first_lem c s req next t1 t2 on miss good)
        (refl, replay key resp c.ttl _ _ req again t3 t4 after refl on in_time)
