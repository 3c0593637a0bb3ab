-- ===== src/Idempotency.antt =====
-- internal/middleware/idempotency.go and internal/middleware/idempotency_cache.go: a request that
-- names an idempotency key is answered from a cache if the same request succeeded lately. SHA-256
-- of crypto/sha256 is a parameter, a function from texts to bytes; texts are ASCII. The rest of the
-- chain of handlers is a function from its own state to its state and the response that the writer
-- captures. Each operation of the cache holds its lock throughout and is given its time.
pub mod Replay
mod Examples
use pack_service.Base.{
  ℕ, ◌+◌, ◌*◌, ◌%◌, ◌^◌, Bool, true, false, ◌||◌, ◌&&◌, not, List, [], ◌∷◌, Option, none, some, ltb,
  leb, if◌then◌else◌, take,
}
use pack_service.Base.Int.{ℤ, pos, negsuc, ltb_ℤ, leb_ℤ}
use pack_service.Base.Machine.{int64, sub_int}
use pack_service.Base.Dict.{Eq, int_eq, string_eq, ◌==◌, lookup, put, remove_if}
use Prim.Native.String.{String, ◌++◌}

-- `cachedResponse`; without its timestamp it is also what `responseWriter` captures.
pub record CachedResponse : Type 0 where
  pub status_code : ℤ
  pub headers : List (String × String)
  pub body : String
  pub timestamp : ℕ

-- `idempotencyCache`
pub record IdempotencyCache : Type 0 where
  pub items : List (ℤ × CachedResponse)
  pub ttl : ℕ

-- `newIdempotencyCache`
abbrev pub new_idempotency_cache : ℕ → IdempotencyCache
new_idempotency_cache ttl = record { items = []; ttl = ttl }

abbrev pub is_old : ℕ → ℕ → CachedResponse → Bool
is_old ttl now resp = ltb (resp.timestamp + ttl) now

-- `Get`
unfoldable pub get_response : IdempotencyCache → ℤ → ℕ → Option CachedResponse
get_response c key now = elim (lookup key c.items) [
  | none ↦ none
  | some resp ↦ if is_old c.ttl now resp then none else some resp
]

-- `Set`
unfoldable pub set_response : IdempotencyCache → ℤ → CachedResponse → ℕ → IdempotencyCache
set_response c key resp now = record c { items = put key (record resp { timestamp = now }) c.items }

-- `cleanup`
unfoldable pub cleanup_responses : IdempotencyCache → ℕ → IdempotencyCache
cleanup_responses c now = record c { items = remove_if (is_old c.ttl now) c.items }

-- The request as the middleware reads it: its header `Idempotency-Key`, its method, the path of its
-- URL, and its body (`none` for a nil one).
pub record Request : Type 0 where
  pub idempotency_key : String
  pub method : String
  pub path : String
  pub body : Option String

-- The text that the hash is taken of.
unfoldable pub hashed : Request → String
hashed req =
    let start = req.idempotency_key ++ req.method ++ req.path in
    elim req.body [ none ↦ start | some bytes ↦ start ++ bytes ]

-- `key<<8 | int(hash[i])`, for the first 8 bytes
unfoldable pub key_from : ℕ → List ℕ → ℕ
key_from key [] = key
key_from key (byte ∷ hash) = key_from ((key * 256 + byte) % 2 ^ 64) hash

-- `generateCacheKey`
unfoldable pub generate_cache_key : (String → List ℕ) → Request → ℤ
unfolding hashed key_from
generate_cache_key sha256 req =
    let key = int64 (pos (key_from 0 (take 8 (sha256 (hashed req))))) in
    if ltb_ℤ key (pos 0) then sub_int (pos 0) key else key

-- The methods that the middleware is for, and the header that it needs.
unfoldable pub applies : Request → Bool
applies req =
    (req.method == "POST" || req.method == "PUT" || req.method == "PATCH")
    && not (req.idempotency_key == "")

-- The status is 2xx.
unfoldable pub is_success : CachedResponse → Bool
is_success resp = leb_ℤ (pos 200) resp.status_code && ltb_ℤ resp.status_code (pos 300)

-- How a request was answered: by the handlers, or from the cache.
pub data Answer : Type 0 where
  handled : CachedResponse → Answer
  replayed : CachedResponse → Answer

module _ {S : Type 0} (sha256 : String → List ℕ) where
  -- After `c.Next()`
  abbrev pub keep : IdempotencyCache → ℤ → S × CachedResponse → ℕ → IdempotencyCache × S × Answer
  keep c key r later =
      (if is_success r.1 then set_response c key r.1 later else c, r.0, handled r.1)

  -- The middleware, with the times of `Get` and `Set`
  unfoldable pub idempotency :
      IdempotencyCache × S
      → Request
      → (S → S × CachedResponse)
      → ℕ
      → ℕ
      → IdempotencyCache × S × Answer
  unfolding get_response set_response applies is_success
  idempotency (c, s) req next now later =
      if applies req
      then (let key = generate_cache_key sha256 req in
          elim (get_response c key now) [
            | some resp ↦ (c, s, replayed resp)
            | none ↦ keep c key (next s) later
          ])
      else (let r = next s in (c, r.0, handled r.1))

  -- `Idempotency`, with what it does for a configuration that is not enabled or has no cache
  unfoldable pub with_config :
      Bool
      → Option IdempotencyCache
      → S
      → Request
      → (S → S × CachedResponse)
      → ℕ
      → ℕ
      → Option IdempotencyCache × S × Answer
  unfolding idempotency
  with_config true (some c) s req next now later =
      let r = idempotency (c, s) req next now later in (some r.0, r.1, r.2)
  with_config true none s req next now later = let r = next s in (none, r.0, handled r.1)
  with_config false c s req next now later = let r = next s in (c, r.0, handled r.1)
