-- ===== src/TtlCache.antt =====
-- internal/service/cache.go: `ttlCache`, an LRU cache with expiry. Its entries are cells of a heap,
-- linked by pointers in both directions, and a map leads from a key to its cell.
-- A pointer is a number, `nil` is `none`, and `next_free` is the next cell that an allocation
-- takes. Every pointer that the code follows was allocated, so the heap is a total function. Times
-- are nanoseconds; `Set` reads the cached clock and `Get` the real one, so each operation is given
-- its own time. The time to live is not negative, which a `time.Duration` may be. Hits, misses and
-- evictions are unbounded numbers.
pub mod Links
pub mod Pointers
pub mod Front
pub mod Invariant
pub mod Lru
pub mod Represents
pub mod Storing
pub mod Refinement
pub mod Runs
pub mod Retrieval
pub mod Client
pub mod Sharded
pub mod Expiry
mod Examples
use pack_service.Base.{
  ℕ, zero, suc, ◌+◌, ◌*◌, ◌/◌, ◌%◌, ◌^◌, Bool, true, false, ◌||◌, not, List, [], ◌∷◌, Option, none,
  some, ltb, leb, ◌==◌, if◌then◌else◌, length,
}
use pack_service.Base.Int.{ℤ}
use pack_service.Base.Dict.{Eq, int_eq, lookup, put, delete}
use pack_service.Packs.{PackResult}

abbrev pub Addr : Type 0
Addr = ℕ

-- `cacheEntry`
pub record Entry : Type 0 where
  pub key : ℤ
  pub value : PackResult
  pub expires_at : ℕ
  pub prev : Option Addr
  pub next : Option Addr

-- `ttlCache`
pub record TtlCache : Type 0 where
  pub capacity : ℕ
  pub ttl : ℕ
  pub items : List (ℤ × Addr)
  pub heap : Addr → Entry
  pub next_free : Addr
  pub head : Option Addr
  pub tail : Option Addr
  pub hits : ℕ
  pub misses : ℕ
  pub evictions : ℕ
  pub counter : ℕ  -- probabilisticCounter, a uint32
  pub lru_update_rate : ℕ

-- A heap whose cell `a` holds `e`.
abbrev pub update : (Addr → Entry) → Addr → Entry → Addr → Entry
update h a e b = if a == b then e else h b

-- `newTTLCacheOptimized` and `newTTLCache`; `unallocated` is what the heap held before.
unfoldable pub new_ttl_cache : ℕ → ℕ → (Addr → Entry) → TtlCache
new_ttl_cache capacity ttl unallocated = record {
  capacity = capacity;
  ttl = ttl;
  items = [];
  heap = unallocated;
  next_free = 0;
  head = none;
  tail = none;
  hits = 0;
  misses = 0;
  evictions = 0;
  counter = 0;
  lru_update_rate = 1;
}

-- `p.next = v` and `p.prev = v`, where `p` is not nil
abbrev pub set_next : TtlCache → Addr → Option Addr → TtlCache
set_next c p v = record c { heap = update c.heap p (record (c.heap p) { next = v }) }

abbrev pub set_prev : TtlCache → Addr → Option Addr → TtlCache
set_prev c p v = record c { heap = update c.heap p (record (c.heap p) { prev = v }) }

-- The first and the second half of `remove`. The fields of `entry` are read before either write:
-- neither write goes to `entry` itself.
unlink_prev : TtlCache → Option Addr → Option Addr → TtlCache
unlink_prev c (some p) next = set_next c p next
unlink_prev c none next = record c { head = next }

unlink_next : TtlCache → Option Addr → Option Addr → TtlCache
unlink_next c (some n) prev = set_prev c n prev
unlink_next c none prev = record c { tail = prev }

-- `remove`
unfoldable pub remove : TtlCache → Addr → TtlCache
unfolding unlink_prev unlink_next
remove c a =
    let c1 = unlink_prev c (c.heap a).prev (c.heap a).next in
    unlink_next c1 (c1.heap a).next (c1.heap a).prev

link_head : TtlCache → Option Addr → Addr → TtlCache
link_head c none a = c
link_head c (some h) a = set_prev c h (some a)

link_tail : TtlCache → Option Addr → Addr → TtlCache
link_tail c none a = record c { tail = some a }
link_tail c (some t) a = c

-- `addToFront`
unfoldable pub add_to_front : TtlCache → Addr → TtlCache
unfolding link_head link_tail
add_to_front c a =
    let c1 : TtlCache = record c {
      heap = update c.heap a (record (c.heap a) { prev = none; next = c.head });
    } in
    let c2 = link_head c1 c1.head a in
    let c3 : TtlCache = record c2 { head = some a } in link_tail c3 c3.tail a

-- Whether a pointer that may be nil is `a`.
abbrev pub points_to : Option Addr → Addr → Bool
points_to none a = false
points_to (some b) a = b == a

-- `moveToFront`
unfoldable pub move_to_front : TtlCache → Addr → TtlCache
unfolding remove add_to_front
move_to_front c a = if points_to c.head a then c else add_to_front (remove c a) a

-- `removeEntry`
unfoldable pub remove_entry : TtlCache → Addr → TtlCache
unfolding remove
remove_entry c a = remove (record c { items = delete (c.heap a).key c.items }) a

remove_at : TtlCache → Option Addr → TtlCache
unfolding remove_entry
remove_at c none = c
remove_at c (some t) = remove_entry c t

-- `removeTail`
unfoldable pub remove_tail : TtlCache → TtlCache
unfolding remove_at
remove_tail c = remove_at c c.tail

-- What the part of `Get` under the read lock finds, with the test of the expiry after it.
pub data Found : Type 0 where
  missing : Found
  expired fresh : Addr → Found

unfoldable pub look : TtlCache → ℤ → ℕ → Found
look c key now = elim (lookup key c.items) [
  | none ↦ missing
  | some a ↦ if ltb (c.heap a).expires_at now then expired a else fresh a
]

-- The write-locked section of `Get` for an expired entry: the key may be gone by then.
unfoldable pub drop_expired : TtlCache → ℤ → Addr → TtlCache
drop_expired c key a = elim (lookup key c.items) [ none ↦ c | some _ ↦ remove_entry c a ]

-- The update of the order by `Get` on a hit: always, or once in `lruUpdateRate` calls.
unfoldable pub touch : TtlCache → Addr → TtlCache
touch c a =
    if leb c.lru_update_rate 1
    then move_to_front c a
    else (let c' : TtlCache = record c { counter = (c.counter + 1) % 2 ^ 32 } in
        if c'.counter % (c.lru_update_rate % 2 ^ 32) == 0 then move_to_front c' a else c')

-- `Get`, with no other operation between its sections.
unfoldable pub get : TtlCache → ℤ → ℕ → TtlCache × Option PackResult
unfolding look drop_expired touch
get c key now = elim (look c key now) [
  | missing ↦ (record c { misses = c.misses + 1 }, none)
  | expired a ↦ (let d = drop_expired c key a in record d { misses = d.misses + 1 }, none)
  | fresh a ↦ let d = touch c a in (record d { hits = d.hits + 1 }, some (d.heap a).value)
]

-- `Set` for a key that the map holds.
pub set_old : TtlCache → Addr → PackResult → ℕ → TtlCache
set_old c a value now =
    move_to_front
      (record c {
        heap = update c.heap a (record (c.heap a) { value = value; expires_at = now + c.ttl });
      })
      a

pub insert_new : TtlCache → ℤ → PackResult → ℕ → TtlCache
insert_new c key value now =
    add_to_front
      (record c {
        heap = update c.heap c.next_free (record {
          key = key;
          value = value;
          expires_at = now + c.ttl;
          prev = none;
          next = none;
        });
        items = put key c.next_free c.items;
        next_free = c.next_free + 1;
      })
      c.next_free

-- `Set` for a new key: the least recently used entry goes when the cache is over its capacity.
pub set_new : TtlCache → ℤ → PackResult → ℕ → TtlCache
unfolding insert_new
set_new c key value now =
    let d = insert_new c key value now in
    if ltb d.capacity (length d.items)
    then (let e = remove_tail d in record e { evictions = e.evictions + 1 })
    else d

-- `Set`
unfoldable pub set : TtlCache → ℤ → PackResult → ℕ → TtlCache
unfolding set_old set_new
set c key value now = elim (lookup key c.items) [
  | none ↦ set_new c key value now
  | some a ↦ set_old c a value now
]

-- `Invalidate`
unfoldable pub invalidate : TtlCache → ℤ → TtlCache
invalidate c key = elim (lookup key c.items) [ none ↦ c | some a ↦ remove_entry c a ]

-- The loop of `cleanup` over the entries that the map held.
pub cleanup_from : List (ℤ × Addr) → TtlCache → ℕ → TtlCache
cleanup_from [] c now = c
cleanup_from ((_, a) ∷ items) c now =
    cleanup_from items (if ltb (c.heap a).expires_at now then remove_entry c a else c) now

unfoldable pub cleanup : TtlCache → ℕ → TtlCache
unfolding cleanup_from
cleanup c now = cleanup_from c.items c now

-- A tick of `startCleanup`: it cleans up only a cache that is more than 80 % full.
unfoldable pub cleanup_tick : TtlCache → ℕ → TtlCache
cleanup_tick c now = if ltb (c.capacity * 80 / 100) (length c.items) then cleanup c now else c

-- `Clear`
unfoldable pub clear : TtlCache → TtlCache
clear c = record c { items = []; head = none; tail = none; hits = 0; misses = 0; evictions = 0 }

-- internal/service/cache/cache_interface.go: `Metrics`
pub record Metrics : Type 0 where
  pub hits : ℕ
  pub misses : ℕ
  pub evictions : ℕ
  pub size : ℕ
  pub capacity : ℕ

-- `Metrics` of the cache
unfoldable pub metrics : TtlCache → Metrics
metrics c = record {
  hits = c.hits;
  misses = c.misses;
  evictions = c.evictions;
  size = length c.items;
  capacity = c.capacity;
}
