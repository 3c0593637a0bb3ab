-- ===== src/TtlCache/Retrieval.antt =====
-- What `Get` finds after `Set`.
use pack_service.Base.{
  ℕ, ◌+◌, ◌≤◌, ◌≡◌, refl, ◌∙◌, inl, inr, true, false, List, [], ◌∷◌, ◌++◌, none, some, arith, ltb,
  if◌then◌else◌, Bool-cases, Option-cases, length,
}
use pack_service.Base.Int.{ℤ, eq_ℤ, eq_ℤ_iff}
use pack_service.Packs.{PackResult}
use pack_service.TtlCache.{TtlCache, set, get}
use pack_service.TtlCache.Lru.{Item, Lru, find_item, drop_last, get_item, set_item}
use pack_service.TtlCache.Represents.{Represents}
use pack_service.TtlCache.Refinement.{get-Represents, set-Represents}

abbrev new_item : Lru → ℤ → PackResult → ℕ → Item
new_item s k v now = record { key = k; value = v; expires_at = now + s.ttl }

-- What `set_item` leaves for a new key.
abbrev fitted : ℕ → List Item → List Item
fitted capacity longer = if ltb capacity (length longer) then drop_last longer else longer

find_item-fitted :
    (capacity : ℕ) (x : Item) (es : List Item)
    → 1 ≤ capacity
    → find_item x.key (fitted capacity (x ∷ es)) ≡ some x
unfolding find_item drop_last
find_item-fitted capacity x [] h =
    let self : eq_ℤ x.key x.key ≡ true = (eq_ℤ_iff x.key x.key).1 refl in
    let test : ltb capacity 1 ≡ false = ground arith in rw (test, self) refl
find_item-fitted capacity x (y ∷ es) h =
    let self : eq_ℤ x.key x.key ≡ true = (eq_ℤ_iff x.key x.key).1 refl in
    elim (Bool-cases (ltb capacity (length (x ∷ y ∷ es)))) [
      | inl over ↦ rw (over, self) refl
      | inr fits ↦ rw (fits, self) refl
    ]

-- The item that was set last is found.
find_item-set_item :
    (s : Lru) (k : ℤ) (v : PackResult) (now : ℕ)
    → 1 ≤ s.capacity
    → find_item k (set_item s k v now).entries ≡ some (new_item s k v now)
unfolding set_item find_item
find_item-set_item s k v now h = elim (Option-cases (find_item k s.entries)) [
  | inl absent ↦
      rw (absent, set_item) (find_item-fitted s.capacity (new_item s k v now) s.entries h)
  | inr (x, e) ↦ let self : eq_ℤ k k ≡ true = (eq_ℤ_iff k k).1 refl in rw (e, set_item, self) refl
]

-- A result that was set under a key, in a cache of a capacity of at least 1, is what `Get` returns
-- for this key up to the end of its time to live.
pub get-set :
    (c : TtlCache) (s : Lru) (k : ℤ) (v : PackResult) (at now : ℕ)
    → Represents c s
    → 1 ≤ c.capacity
    → now ≤ at + c.ttl
    → (get (set c k v at) k now).1 ≡ some v
unfolding get_item
get-set c s k v at now r h t =
    let r' = set-Represents c s k v at r in
    let f = find_item-set_item s k v at (rw (← r.capacity) h) in
    let fresh : ltb (at + s.ttl) now ≡ false = (let q = r.ttl in ground arith) in
    (get-Represents (set c k v at) (set_item s k v at) k now r').0 ∙ rw (f, fresh, get_item) refl

-- The last entry, which is the least recently used one, is the key's.
pub record IsLast (j : ℤ) (es : List Item) : Type 0 where
  pub front : List Item
  pub item : Item
  pub last : es ≡ front ++ item ∷ []
  pub its_key : item.key ≡ j

-- The key is new, the cache is full, and the other key is that of the last entry.
pub record IsEvicted (s : Lru) (k j : ℤ) : Type 0 where
  pub new_key : find_item k s.entries ≡ none
  pub full : s.capacity ≤ length s.entries
  pub oldest : IsLast j s.entries
