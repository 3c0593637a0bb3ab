-- ===== src/TtlCache/Examples.antt =====
-- Runs of the cache, one of them with two calls that overlap, and each theorem of this part at an
-- input.
use pack_service.Base.{
  Returns, ◌>>=◌, ℕ, ◌+◌, ◌≡◌, ◌≤◌, refl, List, [], ◌∷◌, none, some, length, arith,
}
use pack_service.Base.Int.{ℤ, pos, negsuc}
use pack_service.Base.Dict.{int_eq, lookup, put, delete}
use pack_service.Packs.{PackResult}
use pack_service.Packs.Service.{CacheLaws}
use pack_service.TtlCache.{
  Addr, Entry, TtlCache, fresh, unlink_prev, unlink_next, remove, link_head, link_tail,
  add_to_front, move_to_front, remove_entry, remove_at, remove_tail, look, drop_expired, touch, get,
  set_old, insert_new, set_new, set, invalidate, cleanup_from, cleanup, cleanup_tick, clear,
  new_ttl_cache,
}
use pack_service.TtlCache.Sharded.{
  ShardedCache, round_up, new_sharded_cache, shard_of, sharded_get, sharded_set, IsSharded,
  new_sharded_cache-IsSharded, sharded_get-sharded_set,
}
use pack_service.TtlCache.Expiry.{live_items, cleanup-Represents}
use pack_service.TtlCache.Lru.{Lru, find_item, remove_item, drop_last, get_item, set_item}
use pack_service.TtlCache.Represents.{Represents, new_ttl_cache-Represents}
use pack_service.TtlCache.Refinement.{set-Represents}
use pack_service.TtlCache.Runs.{
  Command, getting, setting, cleaning, run_cache, run_items, run_cache_lem, run_cache-IsWithin,
}
use pack_service.TtlCache.Retrieval.{get-set}
use pack_service.TtlCache.Client.{IsKept, timed_cache, timed_cache-CacheLaws}

program : Unit {0}
unfolding lookup put delete unlink_prev unlink_next remove link_head link_tail add_to_front
    move_to_front remove_entry remove_at remove_tail look drop_expired touch get set_old insert_new
    set_new set invalidate cleanup_from cleanup cleanup_tick clear new_ttl_cache run_cache run_items
    find_item remove_item drop_last get_item set_item
program = tt

abbrev result : ℕ → PackResult
result n = record { packs = []; total_items = pos n; ordered_items = pos n }

abbrev blank : Addr → Entry
blank a = record { key = pos 0; value = result 0; expires_at = 0; prev = none; next = none }

-- Two entries fit, and they live for 10.
abbrev small : TtlCache
small = new_ttl_cache 2 10 blank

abbrev small_lru : Lru
small_lru = record { capacity = 2; ttl = 10; entries = [] }

-- The third key takes the place of the second: the first was read in between. The cleanup takes
-- only the first.
abbrev commands : List Command
commands =
    setting (pos 1) (result 1) 0
    ∷ setting (pos 2) (result 2) 1
    ∷ getting (pos 1) 2
    ∷ setting (pos 3) (result 3) 3
    ∷ getting (pos 2) 4
    ∷ getting (pos 1) 10
    ∷ cleaning 11
    ∷ getting (pos 1) 11
    ∷ getting (pos 3) 12
    ∷ []

evicted :
    (run_cache commands small).1
    ≡ some (result 1) ∷ none ∷ some (result 1) ∷ none ∷ some (result 3) ∷ []
unfolding program
evicted = refl

-- At 11 the first entry has expired, and the second one has not.
cleaned : length (cleanup (set (set small (pos 1) (result 1) 0) (pos 2) (result 2) 1) 11).items ≡ 1
unfolding program
cleaned = refl

-- A call of `Get` finds the cell 0 for the key 1 under the read lock, the key 2 takes its place in
-- a cache for one entry, and then the call of `Get` moves the cell to the front. The cell is in the
-- list again, but not in the map, so that the next evictions take it instead of an entry of the
-- map: the cache keeps two entries.
abbrev single : TtlCache
single = set (new_ttl_cache 1 10 blank) (pos 1) (result 1) 0

found_first : look single (pos 1) 1 ≡ fresh 0
unfolding program
found_first = refl

overfull :
    length
      (set
        (set (touch (set single (pos 2) (result 2) 1) 0) (pos 3) (result 3) 2)
        (pos 4)
        (result 4)
        3).items
    ≡ 2
unfolding program
overfull = refl

run_cache_lem_example : (run_cache commands small).1 ≡ (run_items commands small_lru).1
run_cache_lem_example = run_cache_lem 2 10 blank commands

run_cache-IsWithin_example : length (run_cache commands small).0.items ≤ 2
run_cache-IsWithin_example = run_cache-IsWithin 2 10 blank commands

small-Represents : Represents small small_lru
small-Represents = new_ttl_cache-Represents 2 10 blank

set-Represents_example :
    Represents (set small (pos 1) (result 1) 0) (set_item small_lru (pos 1) (result 1) 0)
set-Represents_example = set-Represents small small_lru (pos 1) (result 1) 0 small-Represents

-- The entry lives until 10.
cleanup-Represents_example :
    Represents (cleanup (set small (pos 1) (result 1) 0) 11) (record small_lru {
      entries = live_items 11 (set_item small_lru (pos 1) (result 1) 0).entries;
    })
unfolding set_item find_item
cleanup-Represents_example =
    cleanup-Represents (set small (pos 1) (result 1) 0) (set_item small_lru (pos 1) (result 1) 0) 11
      (set-Represents small small_lru (pos 1) (result 1) 0 small-Represents)

room : 1 ≤ small.capacity
unfolding new_ttl_cache
room = omega arith

in_time : 10 ≤ 0 + small.ttl
unfolding new_ttl_cache
in_time = omega arith

get-set_example : (get (set small (pos 1) (result 1) 0) (pos 1) 10).1 ≡ some (result 1)
get-set_example = get-set small small_lru (pos 1) (result 1) 0 10 small-Represents room in_time

abbrev IsOwn : ℤ → PackResult → Type 0
IsOwn k r = r.ordered_items ≡ k

timed_cache-CacheLaws_example : CacheLaws (timed_cache (λ n. n)) IsOwn (IsKept IsOwn)
timed_cache-CacheLaws_example = timed_cache-CacheLaws IsOwn (λ n. n)

-- Four shards, for three that are asked for.
abbrev spread : ShardedCache
spread = new_sharded_cache (pos 100) 10 (pos 3) blank

four_shards : (spread.num_shards ≡ 4) × (spread.shard_mask ≡ 3)
unfolding new_sharded_cache round_up
four_shards = (refl, refl)

-- The number -3 ends with the bits 01.
negative_key : shard_of (negsuc 2) 3 ≡ 1
unfolding shard_of
negative_key = refl

spread-IsSharded : IsSharded 10 spread
spread-IsSharded = (new_sharded_cache-IsSharded (pos 100) 10 (pos 3) blank).0

sharded_get-sharded_set_example :
    Returns
      (λ r. r.1 ≡ some (result 1))
      (sharded_set spread (negsuc 2) (result 1) 5 >>= λ sc'. sharded_get sc' (negsuc 2) 15)
sharded_get-sharded_set_example =
    sharded_get-sharded_set spread 10 (negsuc 2) (result 1) 5 15 spread-IsSharded (omega arith)
