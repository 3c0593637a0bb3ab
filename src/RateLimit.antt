-- ===== src/RateLimit.antt =====
-- internal/middleware/rate_limit.go: the sharded rate limiter. Each operation holds the lock of a
-- shard from its first read to its last write, so a run is a sequence of operations.
-- Identifiers are ASCII texts, whose bytes are their code points. Times are nanoseconds on the
-- monotonic clock, and `now.Sub(t) > d` is `t + d < now`.
pub mod Visits
pub mod Budget
pub mod Cleanup
mod Examples
use Prim.Native.Char.{code}
use Prim.Native.Nat.{bit_xor}
use Prim.Native.String.{String, ◌++◌}
use pack_service.Base.{
  ℕ, zero, suc, ◌+◌, ◌*◌, ◌%◌, ◌^◌, Bool, true, false, ◌||◌, List, [], ◌∷◌, map, Option, none, some,
  ltb, if◌then◌else◌, length, get_elem?, set, replicate, Outcome, returns, panics, ◌>>=◌, or_panic,
}
use pack_service.Base.Int.{ℤ, pos, negsuc, pos_part, leb_ℤ}
use pack_service.Base.Machine.{sub_int}
use pack_service.Base.Dict.{Eq, string_eq, lookup, put, remove_if}

pub record Visitor : Type 0 where
  pub tokens : ℤ
  pub last_reset : ℕ

-- `rateLimiterShard`
abbrev pub Shard : Type 0
Shard = List (String × Visitor)

-- `ShardedRateLimiter`
pub record Limiter : Type 0 where
  pub shards : List Shard
  pub num_shards : ℕ
  pub rate : ℤ
  pub window : ℕ

-- `NewShardedRateLimiter`
unfoldable pub new_sharded : ℤ → ℕ → ℤ → Limiter
new_sharded rate window num_shards =
    let n : ℕ = if leb_ℤ num_shards (pos 0) then 16 else pos_part num_shards in
    record { shards = replicate n []; num_shards = n; rate = rate; window = window }

-- `NewRateLimiter`
unfoldable pub new_limiter : ℤ → ℕ → Limiter
unfolding new_sharded
new_limiter rate window = new_sharded rate window (pos 16)

-- The 32-bit FNV-1a hash of the standard library: offset basis, then for each byte an exclusive or
-- and a product modulo 2^32.
unfoldable pub fnv_from : ℕ → String → ℕ
fnv_from h String.[] = h
fnv_from h (String.◌∷◌ c s) = fnv_from (bit_xor h (code c) * 16777619 % 2 ^ 32) s

unfoldable pub fnv32a : String → ℕ
unfolding fnv_from
fnv32a s = fnv_from 2166136261 s

-- The index that `getShard` reads.
unfoldable pub shard_index : Limiter → String → ℕ
shard_index rl identifier = fnv32a identifier % (rl.num_shards % 2 ^ 32)

-- `!exists || now.Sub(v.lastReset) > rl.window`
abbrev pub starts_window : ℕ → ℕ → Option Visitor → Bool
starts_window window now none = true
starts_window window now (some v) = ltb (v.last_reset + window) now

abbrev tokens_of : Option Visitor → ℤ
tokens_of none = pos 0
tokens_of (some v) = v.tokens

-- What `checkRateLimit` decides for a visitor, and the visitor that it leaves: `none` where it
-- writes nothing.
unfoldable pub visit : ℤ → ℕ → ℕ → Option Visitor → Option Visitor × Bool × ℤ
visit rate window now old =
    if starts_window window now old
    then (
      some (record { tokens = sub_int rate (pos 1); last_reset = now }),
      true,
      sub_int rate (pos 1),
    )
    else elim old [
      | none ↦ (none, true, pos 0)
      | some v ↦ if leb_ℤ v.tokens (pos 0) then (none, false, pos 0) else (
        some (record { tokens = sub_int v.tokens (pos 1); last_reset = v.last_reset }),
        true,
        sub_int v.tokens (pos 1),
      )
    ]

-- `checkRateLimit`: the limiter, whether the request is allowed, and the tokens that remain.
unfoldable pub check_rate_limit : Limiter → String → ℕ → Outcome (Limiter × Bool × ℤ)
check_rate_limit rl identifier now = do
  shard ← or_panic (get_elem? rl.shards (shard_index rl identifier))
  let (written, allowed, remaining) = visit rl.rate rl.window now (lookup identifier shard)
  elim written [
    | none ↦ returns (rl, allowed, remaining)
    | some v ↦ returns (
      record rl { shards = set rl.shards (shard_index rl identifier) (put identifier v shard) },
      allowed,
      remaining,
    )
  ]

-- `cleanupExpired`
unfoldable pub cleanup_expired : Limiter → ℕ → Limiter
cleanup_expired rl now = record rl {
  shards = map (remove_if (λ v. ltb (v.last_reset + rl.window * 2) now)) rl.shards;
}

total : List ℕ → ℕ
total [] = 0
total (n ∷ ns) = n + total ns

-- `Stats`
unfoldable pub stats : Limiter → ℕ × List ℕ
unfolding total
stats rl = let per_shard = map (λ (s : Shard). length s) rl.shards in (total per_shard, per_shard)

-- `getUserIdentifier`: `user` is the hexadecimal user ID that the JWT middleware stored, if any.
unfoldable pub user_identifier : Option String → String → String
user_identifier (some hex) ip = "user:" ++ hex
user_identifier none ip = "ip:" ++ ip

-- What a limiter's middleware does with a request: it goes on, or answers 429 with `Retry-After`.
pub data Verdict : Type 0 where
  passes : Verdict
  too_many_requests : Verdict

limit : Limiter → String → ℕ → Outcome (Limiter × Verdict)
limit rl identifier now = do
  (rl', allowed, _) ← check_rate_limit rl identifier now
  returns (rl', if allowed then passes else too_many_requests)

-- `RateLimit`, by the client's address
unfoldable pub rate_limit : Limiter → String → ℕ → Outcome (Limiter × Verdict)
unfolding limit
rate_limit rl ip now = limit rl ip now

-- `UserRateLimit`
unfoldable pub user_rate_limit : Limiter → Option String → String → ℕ → Outcome (Limiter × Verdict)
unfolding limit user_identifier
user_rate_limit rl user ip now = limit rl (user_identifier user ip) now
