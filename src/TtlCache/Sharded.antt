-- ===== src/TtlCache/Sharded.antt =====
-- internal/service/cache.go: `ShardedCache`, which spreads the keys over several LRU caches. The
-- number of shards is rounded up to a power of two, so that a mask of bits chooses the shard; the
-- model covers up to 2^62 shards, where the doubling does not wrap.
use Prim.Native.Nat.{bit_and, bit_and-bitwise, digits}
use pack_service.Base.{
  ℕ, zero, suc, ◌+◌, ◌-◌, ◌*◌, ◌/◌, ◌≤◌, ◌<◌, ◌≡◌, refl, sym, subst, ◌∙◌, min, Bool-cases, inl, inr,
  List, [], ◌∷◌, Option, some, arith, ltb, if◌then◌else◌, length, get_elem?, replicate, All,
  length-replicate, get_elem?-set_self, Outcome, returns, ◌>>=◌, or_panic, Returns, returned, map,
}
use pack_service.Base.{set as set_elem}
use pack_service.Base.Int.{ℤ, pos, negsuc, pos_part, leb_ℤ}
use pack_service.Packs.{PackResult}
use pack_service.TtlCache.{
  Addr, Entry, TtlCache, Metrics, new_ttl_cache, get, set, invalidate, clear, metrics,
}
use pack_service.TtlCache.Lru.{Lru}
use pack_service.TtlCache.Represents.{Represents, new_ttl_cache-Represents}
use pack_service.TtlCache.Retrieval.{get-set}

pub record ShardedCache : Type 0 where
  pub shards : List TtlCache
  pub num_shards : ℕ
  pub shard_mask : ℕ

-- `n := 1; for n < numShards { n *= 2 }`, with fuel
unfoldable pub round_up : ℕ → ℕ → ℕ → ℕ
round_up zero n num_shards = n
round_up (suc fuel) n num_shards =
    let rest = round_up fuel (n * 2) num_shards in if ltb n num_shards then rest else n

-- `NewShardedCache`: the fuel is the number that is asked for.
unfoldable pub new_sharded_cache : ℤ → ℕ → ℤ → (Addr → Entry) → ShardedCache
unfolding round_up
new_sharded_cache capacity ttl num_shards unallocated =
    let asked : ℕ = if leb_ℤ num_shards (pos 0) then 16 else pos_part num_shards in
    let n = round_up asked 1 asked in
    let share = pos_part capacity / n in
    let per_shard : ℕ = if ltb share 1 then 1 else share in
    record {
      shards = replicate n (new_ttl_cache per_shard ttl unallocated);
      num_shards = n;
      shard_mask = n - 1;
    }

-- `key & sc.shardMask`, on two's complement numbers
unfoldable pub shard_of : ℤ → ℕ → ℕ
shard_of (pos n) mask = bit_and n mask
shard_of (negsuc n) mask = mask - bit_and n mask

-- `getShard`
unfoldable pub get_shard : ShardedCache → ℤ → Outcome TtlCache
unfolding shard_of
get_shard sc key = or_panic (get_elem? sc.shards (shard_of key sc.shard_mask))

abbrev pub put_shard : ShardedCache → ℤ → TtlCache → ShardedCache
put_shard sc key c = record sc { shards = set_elem sc.shards (shard_of key sc.shard_mask) c }

-- `Get`, `Set`, `Invalidate` and `Clear`
unfoldable pub sharded_get : ShardedCache → ℤ → ℕ → Outcome (ShardedCache × Option PackResult)
unfolding get_shard
sharded_get sc key now = do
  c ← get_shard sc key
  let r = get c key now
  returns (put_shard sc key r.0, r.1)

unfoldable pub sharded_set : ShardedCache → ℤ → PackResult → ℕ → Outcome ShardedCache
unfolding get_shard
sharded_set sc key value now = do
  c ← get_shard sc key
  returns (put_shard sc key (set c key value now))

unfoldable pub sharded_invalidate : ShardedCache → ℤ → Outcome ShardedCache
unfolding get_shard
sharded_invalidate sc key = do c ← get_shard sc key; returns (put_shard sc key (invalidate c key))

unfoldable pub sharded_clear : ShardedCache → ShardedCache
sharded_clear sc = record sc { shards = map clear sc.shards }

-- `Metrics`: the sums over the shards
unfoldable pub add_metrics : List TtlCache → Metrics
add_metrics [] = record { hits = 0; misses = 0; evictions = 0; size = 0; capacity = 0 }
add_metrics (c ∷ shards) =
    let m = metrics c in
    let rest = add_metrics shards in
    record {
      hits = m.hits + rest.hits;
      misses = m.misses + rest.misses;
      evictions = m.evictions + rest.evictions;
      size = m.size + rest.size;
      capacity = m.capacity + rest.capacity;
    }

unfoldable pub sharded_metrics : ShardedCache → Metrics
unfolding add_metrics
sharded_metrics sc = add_metrics sc.shards

digits_le : (fuel a b : ℕ) → digits (λ b. zero) min fuel a b ≤ b
digits_le zero a b = omega arith
digits_le (suc n) zero b = omega arith
digits_le (suc n) (suc a) b = let rest = digits_le n (suc a / 2) (b / 2) in ground (arith, rest)

bit_and_le : (a b : ℕ) → bit_and a b ≤ b
bit_and_le a b =
    let e : bit_and a b ≡ digits (λ b. zero) min a a b = λ i. bit_and-bitwise a b i in
    subst (λ z. z ≤ b) (sym e) (digits_le a a b)

shard_of-le : (key : ℤ) (mask : ℕ) → shard_of key mask ≤ mask
unfolding shard_of
shard_of-le (pos n) mask = bit_and_le n mask
shard_of-le (negsuc n) mask = omega arith

abbrev IsShard : ℕ → TtlCache → Type 0
IsShard ttl c = (s : Lru) × Represents c s × (1 ≤ c.capacity) × (c.ttl ≡ ttl)

-- There is a shard for every value under the mask, and each is a cache for one entry or more.
pub record IsSharded (ttl : ℕ) (sc : ShardedCache) : Type 0 where
  pub full : length sc.shards ≡ suc sc.shard_mask
  pub sound : All (IsShard ttl) sc.shards

-- 1, doubled `k` times
abbrev pub doubled : ℕ → ℕ
doubled zero = 1
doubled (suc k) = doubled k * 2

doubled-positive : (k : ℕ) → 1 ≤ doubled k
doubled-positive zero = omega arith
doubled-positive (suc k) = omega (arith, doubled-positive k)

round_up-doubled :
    (fuel k asked : ℕ)
    → asked ≤ doubled k + fuel
    → (j : ℕ) × (round_up fuel (doubled k) asked ≡ doubled j) × (asked ≤ doubled j)
unfolding round_up
round_up-doubled zero k asked h = (k, refl, omega arith)
round_up-doubled (suc fuel) k asked h = elim (Bool-cases (ltb (doubled k) asked)) [
  | inl more ↦
      rw more (round_up-doubled fuel (suc k) asked (let p = doubled-positive k in omega arith))
  | inr enough ↦ rw enough (k, refl, ground arith)
]

replicate-All : (P : TtlCache → Type 0) (n : ℕ) (c : TtlCache) → P c → All P (replicate n c)
replicate-All P zero c p = tt
replicate-All P (suc n) c p = (p, replicate-All P n c p)

asked_le : (z : ℤ) → pos_part z ≤ (if leb_ℤ z (pos 0) then 16 else pos_part z)
asked_le (pos n) = ground arith
asked_le (negsuc n) = ground arith

-- Whatever capacity and number of shards are asked for, a new cache has a shard for every value
-- under its mask, each of them for one entry or more; the number of shards is a power of two and
-- not below the number that was asked for.
pub new_sharded_cache-IsSharded :
    (capacity : ℤ) (ttl : ℕ) (num_shards : ℤ) (unallocated : Addr → Entry)
    → IsSharded ttl (new_sharded_cache capacity ttl num_shards unallocated)
      × ((k : ℕ) × ((new_sharded_cache capacity ttl num_shards unallocated).num_shards ≡ doubled k))
      × (pos_part num_shards ≤ (new_sharded_cache capacity ttl num_shards unallocated).num_shards)
unfolding new_sharded_cache new_ttl_cache
new_sharded_cache-IsSharded capacity ttl num_shards unallocated =
    let asked : ℕ = if leb_ℤ num_shards (pos 0) then 16 else pos_part num_shards in
    let (k, same, enough) = round_up-doubled asked 0 asked (omega arith) in
    let n = round_up asked 1 asked in
    let share = pos_part capacity / n in
    let per_shard : ℕ = if ltb share 1 then 1 else share in
    let some_room : 1 ≤ per_shard = ground arith in
    let positive : 1 ≤ n = (let p = doubled-positive k in omega arith) in
    (
      record {
        full =
            length-replicate {A = TtlCache} n (new_ttl_cache per_shard ttl unallocated)
            ∙ omega arith;
        sound =
            replicate-All (IsShard ttl) n (new_ttl_cache per_shard ttl unallocated)
              (_, new_ttl_cache-Represents per_shard ttl unallocated, some_room, refl);
      },
      (k, same),
      (let q = asked_le num_shards in omega arith),
    )

shard_here :
    (P : TtlCache → Type 0) (xs : List TtlCache) (i : ℕ)
    → i < length xs
    → All P xs
    → (c : TtlCache) × (get_elem? xs i ≡ some c) × P c
shard_here P [] i h a = elim h [ ]
shard_here P (x ∷ xs) zero h a = (x, refl, a.0)
shard_here P (x ∷ xs) (suc i) h a = shard_here P xs i (omega arith) a.1

-- In a sharded cache with a shard for every value under its mask, no key makes `getShard` panic,
-- and `Get` returns what was set last under a key up to the end of its time to live.
pub sharded_get-sharded_set :
    (sc : ShardedCache) (ttl : ℕ) (key : ℤ) (value : PackResult) (at now : ℕ)
    → IsSharded ttl sc
    → now ≤ at + ttl
    → Returns
        (λ r. r.1 ≡ some value)
        (sharded_set sc key value at >>= λ sc'. sharded_get sc' key now)
unfolding sharded_get sharded_set get_shard
sharded_get-sharded_set sc ttl key value at now sharded in_time =
    let i = shard_of key sc.shard_mask in
    let inside : i < length sc.shards =
      (let q = shard_of-le key sc.shard_mask in let f = sharded.full in omega arith) in
    let (c, here, (s, r, room, same)) = shard_here (IsShard ttl) sc.shards i inside sharded.sound in
    let there = get_elem?-set_self sc.shards i (set c key value at) inside in
    let found = get-set c s key value at now r room (rw same in_time) in
    rw (here, there) (returned found)
