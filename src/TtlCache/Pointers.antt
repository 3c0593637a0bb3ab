-- ===== src/TtlCache/Pointers.antt =====
-- `remove` on the heap: the pointers stay those of a list of cells.
use pack_service.Base.{
  ◌≡◌, refl, sym, ap, subst, ◌∙◌, inl, inr, false, List, [], ◌∷◌, Option, none, some, arith, ◌==◌,
  if◌then◌else◌, Bool-cases, ◌∈◌,
}
use pack_service.TtlCache.{
  Addr, TtlCache, points_to, set_next, set_prev, unlink_prev, unlink_next, remove,
}
use pack_service.TtlCache.Links.{
  head_of, last_from, prev_in, next_in, erase, IsDistinct, erase-mem, erase-ne, erase-IsDistinct,
  next_in-erase, prev_in-erase, head_of-erase, last_from-erase,
}

-- The cells `cells`, from the most recently used to the least, are linked in this order.
pub record IsLinked (c : TtlCache) (cells : List Addr) : Type 0 where
  pub prevs : (b : Addr) → b ∈ cells → (c.heap b).prev ≡ prev_in none cells b
  pub nexts : (b : Addr) → b ∈ cells → (c.heap b).next ≡ next_in cells b
  pub head : c.head ≡ head_of cells
  pub tail : c.tail ≡ last_from none cells
  pub distinct : IsDistinct cells

-- Nothing but pointers has changed.
pub record SameData (c d : TtlCache) : Type 0 where
  pub keys : (b : Addr) → (d.heap b).key ≡ (c.heap b).key
  pub values : (b : Addr) → (d.heap b).value ≡ (c.heap b).value
  pub items : d.items ≡ c.items
  pub expiries : (b : Addr) → (d.heap b).expires_at ≡ (c.heap b).expires_at
  pub capacity : d.capacity ≡ c.capacity
  pub ttl : d.ttl ≡ c.ttl
  pub lru_update_rate : d.lru_update_rate ≡ c.lru_update_rate
  pub next_free : d.next_free ≡ c.next_free

pub SameData-trans : {c d e : TtlCache} → SameData c d → SameData d e → SameData c e
SameData-trans s t = record {
  keys = λ b. t.keys b ∙ s.keys b;
  values = λ b. t.values b ∙ s.values b;
  items = t.items ∙ s.items;
  expiries = λ b. t.expiries b ∙ s.expiries b;
  capacity = t.capacity ∙ s.capacity;
  ttl = t.ttl ∙ s.ttl;
  lru_update_rate = t.lru_update_rate ∙ s.lru_update_rate;
  next_free = t.next_free ∙ s.next_free;
}

-- What the two halves of `remove` write.
abbrev unlinked : TtlCache → Option Addr → Option Addr → TtlCache
unlinked c p n = unlink_next (unlink_prev c p n) n p

unlink_prev_fields :
    (c : TtlCache) (a : Addr) (p n : Option Addr)
    → points_to p a ≡ false
    → (((unlink_prev c p n).heap a).next ≡ (c.heap a).next)
      × (((unlink_prev c p n).heap a).prev ≡ (c.heap a).prev)
unfolding unlink_prev
unlink_prev_fields c a none n h = (refl, refl)
unlink_prev_fields c a (some p) n h = (rw h, rw h)

-- The entry is not its own neighbour.
remove_lem :
    (c : TtlCache) (a : Addr) (p n : Option Addr)
    → (c.heap a).prev ≡ p
    → (c.heap a).next ≡ n
    → points_to p a ≡ false
    → remove c a ≡ unlinked c p n
unfolding remove
remove_lem c a p n p_eq n_eq h =
    rw (p_eq, n_eq) (let f = unlink_prev_fields c a p n h in rw (f.0 ∙ n_eq, f.1 ∙ p_eq))

unlinked_prev :
    (c : TtlCache) (p n : Option Addr) (b : Addr)
    → ((unlinked c p n).heap b).prev ≡ (if points_to n b then p else (c.heap b).prev)
unfolding unlink_prev unlink_next
unlinked_prev c none none b = refl
unlinked_prev c none (some n) b = ground arith
unlinked_prev c (some p) none b = ground arith
unlinked_prev c (some p) (some n) b = ground arith

unlinked_next :
    (c : TtlCache) (p n : Option Addr) (b : Addr)
    → ((unlinked c p n).heap b).next ≡ (if points_to p b then n else (c.heap b).next)
unfolding unlink_prev unlink_next
unlinked_next c none none b = refl
unlinked_next c none (some n) b = ground arith
unlinked_next c (some p) none b = ground arith
unlinked_next c (some p) (some n) b = ground arith

unlinked_head :
    (c : TtlCache) (p n h : Option Addr)
    → c.head ≡ h
    → (unlinked c p n).head ≡ elim p [ none ↦ n | some _ ↦ h ]
unfolding unlink_prev unlink_next
unlinked_head c none none h e = refl
unlinked_head c none (some n) h e = refl
unlinked_head c (some p) none h e = e
unlinked_head c (some p) (some n) h e = e

unlinked_tail :
    (c : TtlCache) (p n t : Option Addr)
    → c.tail ≡ t
    → (unlinked c p n).tail ≡ elim n [ none ↦ p | some _ ↦ t ]
unfolding unlink_prev unlink_next
unlinked_tail c none none t e = refl
unlinked_tail c none (some n) t e = e
unlinked_tail c (some p) none t e = refl
unlinked_tail c (some p) (some n) t e = e

-- A write to one pointer of a cell keeps its data.
set_next-SameData : (c : TtlCache) (a : Addr) (v : Option Addr) → SameData c (set_next c a v)
set_next-SameData c a v = record {
  keys = λ b. ground arith;
  values = λ b. ground arith;
  items = refl;
  expiries = λ b. ground arith;
  capacity = refl;
  ttl = refl;
  lru_update_rate = refl;
  next_free = refl;
}

set_prev-SameData : (c : TtlCache) (a : Addr) (v : Option Addr) → SameData c (set_prev c a v)
set_prev-SameData c a v = record {
  keys = λ b. ground arith;
  values = λ b. ground arith;
  items = refl;
  expiries = λ b. ground arith;
  capacity = refl;
  ttl = refl;
  lru_update_rate = refl;
  next_free = refl;
}

-- Only the ends of the list, or a counter of the cache, have changed.
pub unchanged :
    {c d : TtlCache}
    → d.heap ≡ c.heap
    → d.items ≡ c.items
    → d.capacity ≡ c.capacity
    → d.ttl ≡ c.ttl
    → d.lru_update_rate ≡ c.lru_update_rate
    → d.next_free ≡ c.next_free
    → SameData c d
unchanged h i k t r n = record {
  keys = λ b. ap (λ heap. (heap b).key) h;
  values = λ b. ap (λ heap. (heap b).value) h;
  expiries = λ b. ap (λ heap. (heap b).expires_at) h;
  items = i;
  capacity = k;
  ttl = t;
  lru_update_rate = r;
  next_free = n;
}

unlink_prev-SameData : (c : TtlCache) (p n : Option Addr) → SameData c (unlink_prev c p n)
unfolding unlink_prev
unlink_prev-SameData c none n = unchanged refl refl refl refl refl refl
unlink_prev-SameData c (some p) n = set_next-SameData c p n

unlink_next-SameData : (c : TtlCache) (n p : Option Addr) → SameData c (unlink_next c n p)
unfolding unlink_next
unlink_next-SameData c none p = unchanged refl refl refl refl refl refl
unlink_next-SameData c (some n) p = set_prev-SameData c n p

pub remove-SameData : (c : TtlCache) (a : Addr) → SameData c (remove c a)
unfolding remove
remove-SameData c a = SameData-trans (unlink_prev-SameData c _ _) (unlink_next-SameData _ _ _)

prev_in_self :
    (p : Option Addr) (xs : List Addr) (a : Addr)
    → IsDistinct xs
    → points_to p a ≡ false
    → points_to (prev_in p xs a) a ≡ false
unfolding prev_in
prev_in_self p [] a d h = refl
prev_in_self p (x ∷ xs) a d h = elim (Bool-cases (x == a)) [
  | inl here ↦ rw here h
  | inr other ↦ rw other (prev_in_self (some x) xs a d.1 other)
]

-- `remove` takes the entry out of the list.
pub remove-IsLinked :
    (c : TtlCache) (a : Addr) (cells : List Addr)
    → IsLinked c cells
    → a ∈ cells
    → IsLinked (remove c a) (erase a cells)
remove-IsLinked c a cells l h =
    subst (λ d. IsLinked d (erase a cells)) (sym same)
      (record {
        prevs = λ b m.
            let m' = erase-mem a b cells m in
            unlinked_prev c p n b
            ∙ rw (
              l.prevs b m',
              prev_in-erase a b (erase-ne a b cells l.distinct m) none cells l.distinct h,
            );
        nexts = λ b m.
            let m' = erase-mem a b cells m in
            unlinked_next c p n b
            ∙ rw (
              l.nexts b m',
              next_in-erase a b (erase-ne a b cells l.distinct m) none cells l.distinct h refl,
            );
        head = unlinked_head c p n (head_of cells) l.head ∙ sym (head_of-erase a cells h);
        tail =
            unlinked_tail c p n (last_from none cells) l.tail
            ∙ sym (last_from-erase none a cells h);
        distinct = erase-IsDistinct a cells l.distinct;
      })
  where
    p : Option Addr
    p = prev_in none cells a

    n : Option Addr
    n = next_in cells a

    same : remove c a ≡ unlinked c p n
    same =
        remove_lem c a p n (l.prevs a h) (l.nexts a h) (prev_in_self none cells a l.distinct refl)
