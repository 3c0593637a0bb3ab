-- ===== src/TtlCache/Represents.antt =====
-- When a cache holds the entries of its specification, and what `removeEntry` and `moveToFront` do
-- then.
use pack_service.Base.{
  ℕ, ◌≡◌, refl, sym, ap, subst, ◌∙◌, true, List, [], ◌∷◌, none, some, arith, leb, ◌∈◌,
}
use pack_service.Base.Int.{ℤ}
use pack_service.Base.Dict.{int_eq, lookup}
use pack_service.TtlCache.{Addr, Entry, TtlCache, move_to_front, remove_entry, new_ttl_cache}
use pack_service.TtlCache.Links.{erase, head_of, last_from}
use pack_service.TtlCache.Pointers.{remove-SameData, unchanged}
use pack_service.TtlCache.Front.{move_to_front-SameData}
use pack_service.TtlCache.Invariant.{
  IsSound, reorder, one_entry, move_to_front-IsSound, remove_entry-IsSound,
}
use pack_service.TtlCache.Lru.{
  Item, Lru, find_item, remove_item, item_at, view, view-eq, item_at-SameData, view-SameData,
  find_item-view, find_item-view-none,
}

-- The cache holds the entries of `s`, in this order. `lruUpdateRate` is 1, as its constructor sets
-- it.
pub record Represents (c : TtlCache) (s : Lru) : Type 0 where
  pub cells : List Addr
  pub sound : IsSound c cells
  pub entries : view c cells ≡ s.entries
  pub capacity : c.capacity ≡ s.capacity
  pub ttl : c.ttl ≡ s.ttl
  pub rate : leb c.lru_update_rate 1 ≡ true

-- A new cache is empty.
pub new_ttl_cache-Represents :
    (capacity ttl : ℕ) (unallocated : Addr → Entry)
    → Represents
        (new_ttl_cache capacity ttl unallocated)
        (record { capacity = capacity; ttl = ttl; entries = [] })
unfolding new_ttl_cache view head_of last_from lookup
new_ttl_cache-Represents capacity ttl unallocated = record {
  cells = [];
  sound = record {
    linked = record {
      prevs = λ b m. absurd m;
      nexts = λ b m. absurd m;
      head = refl;
      tail = refl;
      distinct = tt;
    };
    map = tt;
    listed = λ k a e. absurd (ground arith);
    mapped = λ a m. absurd m;
    counted = refl;
    allocated = λ a m. absurd m;
  };
  entries = refl;
  capacity = refl;
  ttl = refl;
  rate = refl;
}

-- The counters are not part of what the cache represents.
pub count :
    (c : TtlCache) (s : Lru) (hits misses evictions : ℕ)
    → Represents c s
    → Represents (record c { hits = hits; misses = misses; evictions = evictions }) s
count c s hits misses evictions r = record {
  cells = r.cells;
  sound =
      reorder (unchanged refl refl refl refl refl refl)
        (record {
          prevs = r.sound.linked.prevs;
          nexts = r.sound.linked.nexts;
          head = r.sound.linked.head;
          tail = r.sound.linked.tail;
          distinct = r.sound.linked.distinct;
        })
        (λ b. ((λ m. m), λ m. m)) refl r.sound;
  entries = view-eq c _ r.cells (λ a m. refl) ∙ r.entries;
  capacity = r.capacity;
  ttl = r.ttl;
  rate = r.rate;
}

-- The entry that the map has for a key is the first one in the list with this key.
pub found :
    (c : TtlCache) (s : Lru) (k : ℤ) (a : Addr) (r : Represents c s)
    → lookup k c.items ≡ some a
    → (find_item k s.entries ≡ some (item_at c a))
      × (remove_item k s.entries ≡ view c (erase a r.cells))
found c s k a r e =
    let at_a = r.sound.listed k a e in
    let only : (b : Addr) → b ∈ r.cells → (c.heap b).key ≡ k → b ≡ a =
      λ b m q. one_entry c r.cells b a r.sound m at_a.0 (q ∙ sym at_a.1) in
    let lem = find_item-view c k a r.cells at_a.0 at_a.1 only in
    (
      subst (λ es. find_item k es ≡ some (item_at c a)) r.entries lem.0,
      subst (λ es. remove_item k es ≡ view c (erase a r.cells)) r.entries lem.1,
    )

pub not_found :
    (c : TtlCache) (s : Lru) (k : ℤ)
    → Represents c s
    → lookup k c.items ≡ none
    → (find_item k s.entries ≡ none) × (remove_item k s.entries ≡ s.entries)
not_found c s k r e =
    let lem = find_item-view-none c k r.cells (λ b m q.
      let e' : lookup k c.items ≡ some b =
        subst (λ j. lookup j c.items ≡ some b) q (r.sound.mapped b m) in
      absurd (ground arith)) in
    subst (λ es. (find_item k es ≡ none) × (remove_item k es ≡ es)) r.entries lem

-- `removeEntry` takes the entry out.
pub remove_entry-Represents :
    (c : TtlCache) (s : Lru) (a : Addr) (es : List Item) (r : Represents c s)
    → a ∈ r.cells
    → view c (erase a r.cells) ≡ es
    → Represents (remove_entry c a) (record s { entries = es })
unfolding remove_entry
remove_entry-Represents c s a es r m e =
    let same = remove-SameData (record c { items = _ }) a in
    record {
      cells = erase a r.cells;
      sound = remove_entry-IsSound c a r.cells r.sound m;
      entries = view-eq c _ (erase a r.cells) (λ b n. item_at-SameData same b) ∙ e;
      capacity = same.capacity ∙ r.capacity;
      ttl = same.ttl ∙ r.ttl;
      rate = rw same.lru_update_rate r.rate;
    }

-- `moveToFront` makes the entry the first one.
pub move_to_front-Represents :
    (c : TtlCache) (s : Lru) (a : Addr) (es : List Item) (r : Represents c s)
    → a ∈ r.cells
    → view c (erase a r.cells) ≡ es
    → Represents (move_to_front c a) (record s { entries = item_at c a ∷ es })
unfolding view
move_to_front-Represents c s a es r m e =
    let same = move_to_front-SameData c a in
    record {
      cells = a ∷ erase a r.cells;
      sound = move_to_front-IsSound c a r.cells r.sound m;
      entries = view-SameData same (a ∷ erase a r.cells) ∙ ap (λ z. item_at c a ∷ z) e;
      capacity = same.capacity ∙ r.capacity;
      ttl = same.ttl ∙ r.ttl;
      rate = rw same.lru_update_rate r.rate;
    }
