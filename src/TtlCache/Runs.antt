-- ===== src/TtlCache/Runs.antt =====
-- What the specification of the cache gives its clients: a value that was set is found again, no
-- other value is, and the cache stays within its capacity. The theorems are about the cache of
-- internal/service/cache.go itself.
use pack_service.Base.{
  ℕ, suc, ◌+◌, ◌≤◌, ◌≡◌, refl, sym, ap, ◌∙◌, inl, inr, List, [], ◌∷◌, Option, some, arith, ltb,
  Bool-cases, Option-cases, length,
}
use pack_service.Base.Int.{ℤ, eq_ℤ}
use pack_service.Packs.{PackResult}
use pack_service.TtlCache.{
  Addr, Entry, TtlCache, set, get, invalidate, clear, cleanup, new_ttl_cache,
}
use pack_service.TtlCache.Lru.{
  Item, Lru, find_item, remove_item, drop_last, get_item, set_item, invalidate_item, clear_items,
  length-view,
}
use pack_service.TtlCache.Expiry.{live_items, cleanup-Represents}
use pack_service.TtlCache.Represents.{Represents, new_ttl_cache-Represents}
use pack_service.TtlCache.Refinement.{
  get-Represents, set-Represents, invalidate-Represents, clear-Represents,
}

-- A call of the cache by a client or by its ticker, with the time that it reads.
pub data Command : Type 0 where
  getting : ℤ → ℕ → Command
  setting : ℤ → PackResult → ℕ → Command
  invalidating : ℤ → Command
  clearing : Command
  cleaning : ℕ → Command

-- The cache after some calls, and the result of each `Get`.
unfoldable pub run_cache : List Command → TtlCache → TtlCache × List (Option PackResult)
run_cache [] c = (c, [])
run_cache (getting k now ∷ cmds) c =
    let r = get c k now in let rest = run_cache cmds r.0 in (rest.0, r.1 ∷ rest.1)
run_cache (setting k v now ∷ cmds) c = run_cache cmds (set c k v now)
run_cache (invalidating k ∷ cmds) c = run_cache cmds (invalidate c k)
run_cache (clearing ∷ cmds) c = run_cache cmds (clear c)
run_cache (cleaning now ∷ cmds) c = run_cache cmds (cleanup c now)

unfoldable pub run_items : List Command → Lru → Lru × List (Option PackResult)
run_items [] s = (s, [])
run_items (getting k now ∷ cmds) s =
    let r = get_item s k now in let rest = run_items cmds r.0 in (rest.0, r.1 ∷ rest.1)
run_items (setting k v now ∷ cmds) s = run_items cmds (set_item s k v now)
run_items (invalidating k ∷ cmds) s = run_items cmds (invalidate_item s k)
run_items (clearing ∷ cmds) s = run_items cmds (clear_items s)
run_items (cleaning now ∷ cmds) s = run_items cmds (record s { entries = live_items now s.entries })

pub run_cache-Represents :
    (cmds : List Command) (c : TtlCache) (s : Lru)
    → Represents c s
    → ((run_cache cmds c).1 ≡ (run_items cmds s).1)
      × Represents (run_cache cmds c).0 (run_items cmds s).0
unfolding run_cache run_items
run_cache-Represents [] c s r = (refl, r)
run_cache-Represents (getting k now ∷ cmds) c s r =
    let one = get-Represents c s k now r in
    let rest = run_cache-Represents cmds _ _ one.1 in (rw (one.0, rest.0) refl, rest.1)
run_cache-Represents (setting k v now ∷ cmds) c s r =
    run_cache-Represents cmds _ _ (set-Represents c s k v now r)
run_cache-Represents (invalidating k ∷ cmds) c s r =
    run_cache-Represents cmds _ _ (invalidate-Represents c s k r)
run_cache-Represents (clearing ∷ cmds) c s r =
    run_cache-Represents cmds _ _ (clear-Represents c s r)
run_cache-Represents (cleaning now ∷ cmds) c s r =
    run_cache-Represents cmds _ _ (cleanup-Represents c s now r)

-- From a new cache, with any capacity and time to live, and for every sequence of calls of `Get`,
-- `Set`, `Invalidate`, `Clear` and `cleanup`, each at its own time: the results of the calls of
-- `Get` are those of the specification, in which the cache is a list of entries, the most recently
-- used first.
pub run_cache_lem :
    (capacity ttl : ℕ) (unallocated : Addr → Entry) (cmds : List Command)
    → (run_cache cmds (new_ttl_cache capacity ttl unallocated)).1
      ≡ (run_items cmds (record { capacity = capacity; ttl = ttl; entries = [] })).1
run_cache_lem capacity ttl unallocated cmds =
    (run_cache-Represents cmds _ _ (new_ttl_cache-Represents capacity ttl unallocated)).0

length-remove_item : (k : ℤ) (es : List Item) → length (remove_item k es) ≤ length es
unfolding remove_item
length-remove_item k [] = omega arith
length-remove_item k (x ∷ xs) = ground (arith, length-remove_item k xs)

length-drop_last : (x : Item) (es : List Item) → length (drop_last (x ∷ es)) ≡ length es
unfolding drop_last
length-drop_last x [] = refl
length-drop_last x (y ∷ es) = ap suc (length-drop_last y es)

length-live_items : (now : ℕ) (es : List Item) → length (live_items now es) ≤ length es
unfolding live_items
length-live_items now [] = omega arith
length-live_items now (x ∷ xs) = ground (arith, length-live_items now xs)

length-found :
    (k : ℤ) (x : Item) (es : List Item)
    → find_item k es ≡ some x
    → length (remove_item k es) + 1 ≡ length es
unfolding find_item remove_item
length-found k x [] e = absurd (ground arith)
length-found k x (y ∷ es) e = elim (Bool-cases (eq_ℤ y.key k)) [
  | inl here ↦ rw here (omega arith)
  | inr other ↦ rw other (omega (arith, length-found k x es (rw other at e)))
]

module _ (capacity : ℕ) where
  -- The specification stays within the capacity.
  IsWithin : Lru → Type 0
  IsWithin s = (s.capacity ≡ capacity) × (length s.entries ≤ capacity)

  get_item-IsWithin : (s : Lru) (k : ℤ) (now : ℕ) → IsWithin s → IsWithin (get_item s k now).0
  unfolding get_item IsWithin
  get_item-IsWithin s k now w = elim (Option-cases (find_item k s.entries)) [
    | inl absent ↦ rw (absent, get_item) w
    | inr (x, e) ↦
        let shorter = length-found k x s.entries e in
        elim (Bool-cases (ltb x.expires_at now)) [
          | inl old ↦ rw (e, old, get_item) (w.0, omega (arith, shorter, w.1))
          | inr kept ↦ rw (e, kept, get_item) (w.0, omega (arith, shorter, w.1))
        ]
  ]

  set_item-IsWithin :
      (s : Lru) (k : ℤ) (v : PackResult) (now : ℕ) → IsWithin s → IsWithin (set_item s k v now)
  unfolding set_item IsWithin
  set_item-IsWithin s k v now w = elim (Option-cases (find_item k s.entries)) [
    | inl absent ↦
        let x : Item = record { key = k; value = v; expires_at = now + s.ttl } in
        elim (Bool-cases (ltb s.capacity (length (x ∷ s.entries)))) [
          | inl over ↦
              rw (absent, over, set_item)
                (w.0, (let q = length-drop_last x s.entries in omega (arith, q, w.1)))
          | inr fits ↦ rw (absent, fits, set_item) (w.0, (let q = w.0 in ground arith))
        ]
    | inr (x, e) ↦
        let shorter = length-found k x s.entries e in
        rw (e, set_item) (w.0, omega (arith, shorter, w.1))
  ]

  run_items-IsWithin : (cmds : List Command) (s : Lru) → IsWithin s → IsWithin (run_items cmds s).0
  unfolding run_items invalidate_item clear_items IsWithin
  run_items-IsWithin [] s w = w
  run_items-IsWithin (getting k now ∷ cmds) s w =
      run_items-IsWithin cmds _ (get_item-IsWithin s k now w)
  run_items-IsWithin (setting k v now ∷ cmds) s w =
      run_items-IsWithin cmds _ (set_item-IsWithin s k v now w)
  run_items-IsWithin (invalidating k ∷ cmds) s w =
      run_items-IsWithin cmds _ (w.0, omega (arith, length-remove_item k s.entries, w.1))
  run_items-IsWithin (clearing ∷ cmds) s w = run_items-IsWithin cmds _ (w.0, omega arith)
  run_items-IsWithin (cleaning now ∷ cmds) s w =
      run_items-IsWithin cmds _ (w.0, omega (arith, length-live_items now s.entries, w.1))

-- From a new cache, after every sequence of calls of `Get`, `Set`, `Invalidate`, `Clear` and
-- `cleanup`, the map holds at most as many entries as the capacity.
pub run_cache-IsWithin :
    (capacity ttl : ℕ) (unallocated : Addr → Entry) (cmds : List Command)
    → length (run_cache cmds (new_ttl_cache capacity ttl unallocated)).0.items ≤ capacity
unfolding IsWithin
run_cache-IsWithin capacity ttl unallocated cmds =
    let empty : Lru = record { capacity = capacity; ttl = ttl; entries = [] } in
    let r =
      (run_cache-Represents cmds _ empty (new_ttl_cache-Represents capacity ttl unallocated)).1 in
    let w = run_items-IsWithin capacity cmds empty (refl, omega arith) in
    let size = r.sound.counted ∙ sym (length-view _ r.cells) ∙ ap length r.entries in
    omega (arith, size, w.1)
