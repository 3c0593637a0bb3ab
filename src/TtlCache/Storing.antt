-- ===== src/TtlCache/Storing.antt =====
-- The two cases of `Set`, for a key that the cache holds and for a new one.
use pack_service.Base.{
  ℕ, ◌+◌, ◌≡◌, refl, sym, ap, subst, ◌∙◌, inl, inr, true, false, List, [], ◌∷◌, none, some, arith,
  ltb, ◌==◌, if◌then◌else◌, Bool-cases, ◌∈◌, length,
}
use pack_service.Base.Int.{ℤ}
use pack_service.Base.Dict.{int_eq, lookup}
use pack_service.Packs.{PackResult}
use pack_service.TtlCache.{
  Addr, TtlCache, update, remove_tail, remove_at, insert_new, set_old, set_new,
}
use pack_service.TtlCache.Links.{erase, erase-ne, last_from, IsDistinct}
use pack_service.TtlCache.Front.{add_to_front-SameData}
use pack_service.TtlCache.Invariant.{IsSound, insert_new-IsSound}
use pack_service.TtlCache.Lru.{
  Item, Lru, remove_item, drop_last, item_at, view, view-eq, item_at-SameData, length-view,
  view-drop_last, last_from-mem, erase-last,
}
use pack_service.TtlCache.Represents.{
  Represents, count, found, remove_entry-Represents, move_to_front-Represents,
}

abbrev pub new_item : Lru → ℤ → PackResult → ℕ → Item
new_item s k v now = record { key = k; value = v; expires_at = now + s.ttl }

-- The cache after the assignments of `Set` to an entry that it holds.
abbrev stored : TtlCache → Addr → PackResult → ℕ → TtlCache
stored c a v now = record c {
  heap = update c.heap a (record (c.heap a) { value = v; expires_at = now + c.ttl });
}

stored-IsSound :
    (c : TtlCache) (a : Addr) (v : PackResult) (now : ℕ) (cells : List Addr)
    → IsSound c cells
    → IsSound (stored c a v now) cells
stored-IsSound c a v now cells s =
    let keys : (b : Addr) → ((stored c a v now).heap b).key ≡ (c.heap b).key = λ b. ground arith in
    record {
      linked = record {
        prevs = λ b m. (let p = s.linked.prevs b m in ground arith);
        nexts = λ b m. (let p = s.linked.nexts b m in ground arith);
        head = s.linked.head;
        tail = s.linked.tail;
        distinct = s.linked.distinct;
      };
      map = s.map;
      listed = λ k b e. let old = s.listed k b e in (old.0, keys b ∙ old.1);
      mapped = λ b m. subst (λ k. lookup k c.items ≡ some b) (sym (keys b)) (s.mapped b m);
      counted = s.counted;
      allocated = s.allocated;
    }

pub set_old-Represents :
    (c : TtlCache) (s : Lru) (k : ℤ) (v : PackResult) (now : ℕ) (a : Addr)
    → Represents c s
    → lookup k c.items ≡ some a
    → Represents
        (set_old c a v now)
        (record s { entries = new_item s k v now ∷ remove_item k s.entries })
unfolding set_old
set_old-Represents c s k v now a r e =
    let d = stored c a v now in
    let at_a = r.sound.listed k a e in
    let self : (a == a) ≡ true = ground arith in
    let d_Represents : Represents d (record s { entries = view d r.cells }) = record {
      cells = r.cells;
      sound = stored-IsSound c a v now r.cells r.sound;
      entries = refl;
      capacity = r.capacity;
      ttl = r.ttl;
      rate = r.rate;
    } in
    let others : view d (erase a r.cells) ≡ view c (erase a r.cells) =
      view-eq c d (erase a r.cells) (λ b m.
        let n = erase-ne a b r.cells r.sound.linked.distinct m in
        let test : (a == b) ≡ false = ground (arith, n) in rw test refl) in
    let item : item_at d a ≡ new_item s k v now = rw (self, at_a.1, r.ttl) refl in
    subst (λ x. Represents (set_old c a v now) (record s { entries = x ∷ remove_item k s.entries }))
      item
      (move_to_front-Represents d _ a (remove_item k s.entries) d_Represents at_a.0
        (others ∙ sym (found c s k a r e).1))

insert_new-Represents :
    (c : TtlCache) (s : Lru) (k : ℤ) (v : PackResult) (now : ℕ)
    → Represents c s
    → lookup k c.items ≡ none
    → Represents (insert_new c k v now) (record s { entries = new_item s k v now ∷ s.entries })
unfolding insert_new view
insert_new-Represents c s k v now r e =
    let a = c.next_free in
    let same = add_to_front-SameData (record c { heap = _; items = _; next_free = _ }) a in
    let self : (a == a) ≡ true = ground arith in
    let item : item_at (insert_new c k v now) a ≡ new_item s k v now =
      item_at-SameData same a ∙ rw (self, r.ttl) refl in
    record {
      cells = a ∷ r.cells;
      sound = insert_new-IsSound c k v now r.cells r.sound e;
      entries = rw item (
          ap (λ z. new_item s k v now ∷ z)
            (view-eq c (insert_new c k v now) r.cells (λ b m.
                let q = r.sound.allocated b m in
                let test : (a == b) ≡ false = ground arith in
                item_at-SameData same b ∙ rw test refl)
              ∙ r.entries));
      capacity = same.capacity ∙ r.capacity;
      ttl = same.ttl ∙ r.ttl;
      rate = rw same.lru_update_rate r.rate;
    }

-- `removeTail` takes the last entry out.
remove_tail-Represents :
    (c : TtlCache) (s : Lru)
    → Represents c s
    → Represents (remove_tail c) (record s { entries = drop_last s.entries })
unfolding remove_tail remove_at last_from view drop_last
remove_tail-Represents c s r = tail_of r.cells refl
  where
    tail_of :
        (cells : List Addr)
        → r.cells ≡ cells
        → Represents (remove_tail c) (record s { entries = drop_last s.entries })
    tail_of [] q =
        let none_left : c.tail ≡ none = r.sound.linked.tail ∙ ap (last_from none) q in
        let empty : s.entries ≡ [] = sym r.entries ∙ ap (view c) q in
        let same : s.entries ≡ drop_last s.entries = empty ∙ ap drop_last (sym empty) in
        subst (λ d. Represents d (record s { entries = drop_last s.entries }))
          (sym (ap (remove_at c) none_left))
          (subst (λ es. Represents c (record s { entries = es })) same r)
    tail_of (x ∷ xs) q =
        let last = last_from-mem none x xs in
        let at_tail : c.tail ≡ some last.0 =
          r.sound.linked.tail ∙ ap (last_from none) q ∙ last.1.0 in
        let m : last.0 ∈ r.cells = subst (λ z. last.0 ∈ z) (sym q) last.1.1 in
        let left : view c (erase last.0 r.cells) ≡ drop_last s.entries =
          ap (λ z. view c (erase last.0 z)) q
          ∙ ap (view c)
              (erase-last none x xs last.0 (subst IsDistinct q r.sound.linked.distinct) last.1.0)
          ∙ view-drop_last c (x ∷ xs)
          ∙ ap (λ z. drop_last (view c z)) (sym q)
          ∙ ap drop_last r.entries in
        subst (λ d. Represents d (record s { entries = drop_last s.entries }))
          (sym (ap (remove_at c) at_tail))
          (remove_entry-Represents c s last.0 (drop_last s.entries) r m left)

length-insert_new :
    (c : TtlCache) (s : Lru) (k : ℤ) (v : PackResult) (now : ℕ)
    → Represents c s
    → lookup k c.items ≡ none
    → length (insert_new c k v now).items ≡ length (new_item s k v now ∷ s.entries)
length-insert_new c s k v now r e =
    let d = insert_new-Represents c s k v now r e in
    d.sound.counted ∙ sym (length-view (insert_new c k v now) d.cells) ∙ ap length d.entries

pub set_new-Represents :
    (c : TtlCache) (s : Lru) (k : ℤ) (v : PackResult) (now : ℕ)
    → Represents c s
    → lookup k c.items ≡ none
    → Represents (set_new c k v now) (record s {
      entries =
          let longer = new_item s k v now ∷ s.entries in
          if ltb s.capacity (length longer) then drop_last longer else longer;
    })
unfolding set_new
set_new-Represents c s k v now r e =
    let d = insert_new c k v now in
    let d_Represents = insert_new-Represents c s k v now r e in
    let size = length-insert_new c s k v now r e in
    elim (Bool-cases (ltb s.capacity (length (new_item s k v now ∷ s.entries)))) [
      | inl over ↦
          let test : ltb d.capacity (length d.items) ≡ true =
            rw (size, d_Represents.capacity) over in
          rw (test, over) (count (remove_tail d) _ _ _ _ (remove_tail-Represents d _ d_Represents))
      | inr fits ↦
          let test : ltb d.capacity (length d.items) ≡ false =
            rw (size, d_Represents.capacity) fits in
          rw (test, fits) d_Represents
    ]
