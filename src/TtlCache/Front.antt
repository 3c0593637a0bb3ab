-- ===== src/TtlCache/Front.antt =====
-- `addToFront` and `moveToFront` on the heap: the entry becomes the first of the list of cells.
use pack_service.Base.{
  ◌≡◌, refl, sym, subst, ◌∙◌, inl, inr, true, false, List, [], ◌∷◌, Option, none, some, arith, ◌==◌,
  Bool-cases, ◌∈◌,
}
use pack_service.TtlCache.{
  Addr, TtlCache, points_to, link_head, link_tail, update, remove, add_to_front, move_to_front,
}
use pack_service.TtlCache.Links.{head_of, last_from, prev_in, next_in, erase, erase-ne}
use pack_service.TtlCache.Pointers.{
  IsLinked, SameData, SameData-trans, unchanged, remove-SameData, remove-IsLinked,
}

-- What `addToFront` writes, where the list had the head `h` and the tail `t`.
abbrev added : TtlCache → Addr → Option Addr → Option Addr → TtlCache
added c a h t =
    let c1 : TtlCache = record c {
      heap = update c.heap a (record (c.heap a) { prev = none; next = h });
    } in
    let c2 = link_head c1 h a in link_tail (record c2 { head = some a }) t a

link_head_tail : (c : TtlCache) (h : Option Addr) (a : Addr) → (link_head c h a).tail ≡ c.tail
unfolding link_head
link_head_tail c none a = refl
link_head_tail c (some h) a = refl

add_to_front_lem :
    (c : TtlCache) (a : Addr) (h t : Option Addr)
    → c.head ≡ h
    → c.tail ≡ t
    → add_to_front c a ≡ added c a h t
unfolding add_to_front
add_to_front_lem c a h t h_eq t_eq = rw (h_eq, link_head_tail, t_eq) refl

added-SameData : (c : TtlCache) (a : Addr) (h t : Option Addr) → SameData c (added c a h t)
unfolding link_head link_tail
added-SameData c a none none = record {
  keys = λ b. ground arith;
  values = λ b. ground arith;
  items = refl;
  expiries = λ b. ground arith;
  capacity = refl;
  ttl = refl;
  lru_update_rate = refl;
  next_free = refl;
}
added-SameData c a none (some t) = record {
  keys = λ b. ground arith;
  values = λ b. ground arith;
  items = refl;
  expiries = λ b. ground arith;
  capacity = refl;
  ttl = refl;
  lru_update_rate = refl;
  next_free = refl;
}
added-SameData c a (some h) none = record {
  keys = λ b. ground arith;
  values = λ b. ground arith;
  items = refl;
  expiries = λ b. ground arith;
  capacity = refl;
  ttl = refl;
  lru_update_rate = refl;
  next_free = refl;
}
added-SameData c a (some h) (some t) = record {
  keys = λ b. ground arith;
  values = λ b. ground arith;
  items = refl;
  expiries = λ b. ground arith;
  capacity = refl;
  ttl = refl;
  lru_update_rate = refl;
  next_free = refl;
}

pub add_to_front-SameData : (c : TtlCache) (a : Addr) → SameData c (add_to_front c a)
add_to_front-SameData c a =
    subst (SameData c) (sym (add_to_front_lem c a c.head c.tail refl refl))
      (added-SameData c a c.head c.tail)

pub move_to_front-SameData : (c : TtlCache) (a : Addr) → SameData c (move_to_front c a)
unfolding move_to_front
move_to_front-SameData c a = elim (Bool-cases (points_to c.head a)) [
  | inl at_head ↦ rw at_head (unchanged refl refl refl refl refl refl)
  | inr other ↦
      rw other (SameData-trans (remove-SameData c a) (add_to_front-SameData (remove c a) a))
]

last_from-some : (x : Addr) (xs : List Addr) → (y : Addr) × (last_from (some x) xs ≡ some y)
unfolding last_from
last_from-some x [] = (x, refl)
last_from-some x (y ∷ xs) = last_from-some y xs

-- `addToFront` puts an entry that is not in the list before the others.
pub add_to_front-IsLinked :
    (c : TtlCache) (a : Addr) (cells : List Addr)
    → IsLinked c cells
    → (¬ (a ∈ cells))
    → IsLinked (add_to_front c a) (a ∷ cells)
unfolding link_head link_tail head_of last_from prev_in next_in
add_to_front-IsLinked c a [] l out =
    subst (λ d. IsLinked d (a ∷ [])) (sym (add_to_front_lem c a none none l.head l.tail))
      (record {
        prevs = λ b m. ground arith;
        nexts = λ b m. ground arith;
        head = refl;
        tail = refl;
        distinct = (out, tt);
      })
add_to_front-IsLinked c a (x ∷ xs) l out =
    let last = last_from-some x xs in
    let apart : (x == a) ≡ false = ground (arith, λ (e : x ≡ a). out (inl (sym e))) in
    subst (λ d. IsLinked d (a ∷ x ∷ xs))
      (sym (add_to_front_lem c a (some x) (some last.0) l.head (l.tail ∙ last.1)))
      (record {
        prevs = λ b m. elim m [
          | inl here ↦ ground (arith, apart)
          | inr below ↦
              let other : (a == b) ≡ false =
                ground (arith, λ (e : a ≡ b). out (subst (λ z. z ∈ x ∷ xs) (sym e) below)) in
              let old = l.prevs b below in ground (arith, other, old)
        ];
        nexts = λ b m. elim m [
          | inl here ↦ ground (arith, apart)
          | inr below ↦
              let other : (a == b) ≡ false =
                ground (arith, λ (e : a ≡ b). out (subst (λ z. z ∈ x ∷ xs) (sym e) below)) in
              let old = l.nexts b below in ground (arith, other, old)
        ];
        head = refl;
        tail = l.tail;
        distinct = (out, l.distinct);
      })

-- `moveToFront` makes an entry of the list its first one.
pub move_to_front-IsLinked :
    (c : TtlCache) (a : Addr) (cells : List Addr)
    → IsLinked c cells
    → a ∈ cells
    → IsLinked (move_to_front c a) (a ∷ erase a cells)
unfolding move_to_front erase head_of
move_to_front-IsLinked c a [] l h = absurd h
move_to_front-IsLinked c a (x ∷ xs) l h = elim (Bool-cases (x == a)) [
  | inl first ↦
      let at_head : points_to c.head a ≡ true = rw l.head first in
      rw (at_head, first) (subst (λ z. IsLinked c (z ∷ xs)) (let e : x ≡ a = ground arith in e) l)
  | inr other ↦
      let below : points_to c.head a ≡ false = rw l.head other in
      let out : ¬ (a ∈ erase a (x ∷ xs)) = λ m. erase-ne a a (x ∷ xs) l.distinct m refl in
      subst (λ d. IsLinked d (a ∷ erase a (x ∷ xs)))
        (let e : add_to_front (remove c a) a ≡ move_to_front c a = rw below refl in e)
        (add_to_front-IsLinked (remove c a) a (erase a (x ∷ xs)) (remove-IsLinked c a (x ∷ xs) l h)
          out)
]
