-- ===== src/TtlCache/Refinement.antt =====
-- `Get`, `Set`, `Invalidate` and `Clear` do what their specification does.
use pack_service.Base.{
  ℕ, ◌≡◌, refl, sym, ap, inl, inr, true, [], some, arith, ltb, leb, Bool-cases, Option-cases,
}
use pack_service.Base.Int.{ℤ}
use pack_service.Base.Dict.{int_eq, lookup}
use pack_service.Packs.{PackResult}
use pack_service.TtlCache.{
  Addr, TtlCache, move_to_front, remove_entry, set, look, drop_expired, touch, get, invalidate,
  clear,
}
use pack_service.TtlCache.Links.{head_of, last_from}
use pack_service.TtlCache.Front.{move_to_front-SameData}
use pack_service.TtlCache.Lru.{
  Lru, remove_item, get_item, set_item, invalidate_item, clear_items, view,
}
use pack_service.TtlCache.Represents.{
  Represents, count, found, not_found, remove_entry-Represents, move_to_front-Represents,
}
use pack_service.TtlCache.Storing.{set_old-Represents, set_new-Represents}

drop_expired_lem :
    (c : TtlCache) (k : ℤ) (a : Addr)
    → lookup k c.items ≡ some a
    → drop_expired c k a ≡ remove_entry c a
unfolding drop_expired
drop_expired_lem c k a e = rw (e, drop_expired) refl

touch_lem :
    (c : TtlCache) (a : Addr) → leb c.lru_update_rate 1 ≡ true → touch c a ≡ move_to_front c a
unfolding touch
touch_lem c a e = rw (e, touch) refl

-- `Get` returns what the specification returns, and leaves what it leaves.
pub get-Represents :
    (c : TtlCache) (s : Lru) (k : ℤ) (now : ℕ)
    → Represents c s
    → ((get c k now).1 ≡ (get_item s k now).1) × Represents (get c k now).0 (get_item s k now).0
unfolding get look get_item
get-Represents c s k now r = elim (Option-cases (lookup k c.items)) [
  | inl absent ↦
      let n = not_found c s k r absent in rw (absent, n.0, get, get_item) (refl, count c s _ _ _ r)
  | inr (a, e) ↦
      let f = found c s k a r e in
      let m = (r.sound.listed k a e).0 in
      elim (Bool-cases (ltb (c.heap a).expires_at now)) [
        | inl old ↦
            rw (e, f.0, old, get, drop_expired_lem c k a e, get_item)
              (
                refl,
                count (remove_entry c a) _ _ _ _
                    (remove_entry-Represents c s a (remove_item k s.entries) r m (sym f.1)),
              )
        | inr kept ↦
            rw (e, f.0, kept, get, touch_lem c a r.rate, get_item)
              (
                ap some ((move_to_front-SameData c a).values a),
                count (move_to_front c a) _ _ _ _
                    (move_to_front-Represents c s a (remove_item k s.entries) r m (sym f.1)),
              )
      ]
]

-- `Invalidate`
pub invalidate-Represents :
    (c : TtlCache) (s : Lru) (k : ℤ)
    → Represents c s
    → Represents (invalidate c k) (invalidate_item s k)
unfolding invalidate invalidate_item
invalidate-Represents c s k r = elim (Option-cases (lookup k c.items)) [
  | inl absent ↦ let n = not_found c s k r absent in rw (absent, n.1, invalidate, invalidate_item) r
  | inr (a, e) ↦
      let f = found c s k a r e in
      rw (e, invalidate)
        (remove_entry-Represents c s a (remove_item k s.entries) r (r.sound.listed k a e).0
          (sym f.1))
]

-- `Clear`
pub clear-Represents :
    (c : TtlCache) (s : Lru) → Represents c s → Represents (clear c) (clear_items s)
unfolding clear clear_items view head_of last_from lookup
clear-Represents c s r = record {
  cells = [];
  sound = record {
    linked = record {
      prevs = λ b m. absurd m;
      nexts = λ b m. absurd m;
      head = refl;
      tail = refl;
      distinct = tt;
    };
    map = tt;
    listed = λ k a e. absurd (ground arith);
    mapped = λ a m. absurd m;
    counted = refl;
    allocated = λ a m. absurd m;
  };
  entries = refl;
  capacity = r.capacity;
  ttl = r.ttl;
  rate = r.rate;
}

-- `Set`
pub set-Represents :
    (c : TtlCache) (s : Lru) (k : ℤ) (v : PackResult) (now : ℕ)
    → Represents c s
    → Represents (set c k v now) (set_item s k v now)
unfolding set set_item
set-Represents c s k v now r = elim (Option-cases (lookup k c.items)) [
  | inl absent ↦
      let n = not_found c s k r absent in
      rw (absent, n.0, set, set_item) (set_new-Represents c s k v now r absent)
  | inr (a, e) ↦
      let f = found c s k a r e in rw (e, f.0, set, set_item) (set_old-Represents c s k v now a r e)
]
