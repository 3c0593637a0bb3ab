-- ===== src/TtlCache/Invariant.antt =====
-- The invariant of the cache: its list and its map hold the same entries, each under its own key,
-- and nothing that an operation writes to is shared with a cell that is still to be allocated.
use pack_service.Base.{
  ℕ, ◌+◌, ◌≡◌, ◌≢◌, ◌↔◌, refl, sym, ap, subst, ◌∙◌, inl, inr, true, false, List, [], ◌∷◌, none,
  some, arith, ltb, ◌==◌, Bool-cases, ◌∈◌, length,
}
use pack_service.Base.Int.{ℤ, eq_ℤ_iff}
use pack_service.Base.Dict.{
  int_eq, lookup, put, delete, lookup-put, lookup-delete, put-IsDistinct, delete-IsDistinct,
}
use pack_service.Base.Dict.{◌==◌ as key_eq, IsDistinct as IsMap}
use pack_service.Packs.{PackResult}
use pack_service.TtlCache.{Addr, TtlCache, update, move_to_front, remove_entry, insert_new}
use pack_service.TtlCache.Links.{erase, erase-mem, erase-ne, mem-erase, length-erase}
use pack_service.TtlCache.Pointers.{IsLinked, SameData, remove-SameData, remove-IsLinked}
use pack_service.TtlCache.Front.{
  add_to_front-SameData, add_to_front-IsLinked, move_to_front-SameData, move_to_front-IsLinked,
}

-- The cache holds the entries in `cells`, the most recently used first.
pub record IsSound (c : TtlCache) (cells : List Addr) : Type 0 where
  pub linked : IsLinked c cells
  pub map : IsMap c.items
  pub listed : (k : ℤ) (a : Addr) → lookup k c.items ≡ some a → (a ∈ cells) × ((c.heap a).key ≡ k)
  pub mapped : (a : Addr) → a ∈ cells → lookup (c.heap a).key c.items ≡ some a
  pub counted : length c.items ≡ length cells
  pub allocated : (a : Addr) → a ∈ cells → ltb a c.next_free ≡ true

-- Some list of entries is the one that the pointers give.
abbrev pub IsValid : TtlCache → Type 0
IsValid c = (cells : List Addr) × IsSound c cells

-- The entries may be put in another order.
pub reorder :
    {c d : TtlCache} {cs ds : List Addr}
    → SameData c d
    → IsLinked d ds
    → ((b : Addr) → (b ∈ ds) ↔ (b ∈ cs))
    → length ds ≡ length cs
    → IsSound c cs
    → IsSound d ds
reorder {c} {d} {cs} {ds} same l members size s = record {
  linked = l;
  map = subst IsMap (sym same.items) s.map;
  listed = λ k a e.
      let old = s.listed k a (subst (λ m. lookup k m ≡ some a) same.items e) in
      ((members a).1 old.0, same.keys a ∙ old.1);
  mapped = λ a m.
      let old = s.mapped a ((members a).0 m) in
      subst (λ m. lookup (d.heap a).key m ≡ some a) (sym same.items)
        (subst (λ k. lookup k c.items ≡ some a) (sym (same.keys a)) old);
  counted = ap length same.items ∙ s.counted ∙ sym size;
  allocated =
      λ a m. subst (λ n. ltb a n ≡ true) (sym same.next_free) (s.allocated a ((members a).0 m));
}

-- `moveToFront`
pub move_to_front-IsSound :
    (c : TtlCache) (a : Addr) (cells : List Addr)
    → IsSound c cells
    → a ∈ cells
    → IsSound (move_to_front c a) (a ∷ erase a cells)
move_to_front-IsSound c a cells s h =
    reorder (move_to_front-SameData c a) (move_to_front-IsLinked c a cells s.linked h)
      (λ b. (
        (λ m. elim m [
          | inl here ↦ subst (λ z. z ∈ cells) (sym here) h
          | inr below ↦ erase-mem a b cells below
        ]),
        λ m. elim (Bool-cases (b == a)) [
          | inl same ↦ inl (ground arith)
          | inr other ↦ inr (mem-erase a b cells (ground arith) m)
        ],
      ))
      (omega (arith, length-erase a cells h)) s

-- Two entries of the cache with one key are one entry.
pub one_entry :
    (c : TtlCache) (cells : List Addr) (a b : Addr)
    → IsSound c cells
    → a ∈ cells
    → b ∈ cells
    → (c.heap a).key ≡ (c.heap b).key
    → a ≡ b
one_entry c cells a b s ha hb e =
    let e1 : lookup (c.heap b).key c.items ≡ some a =
      subst (λ k. lookup k c.items ≡ some a) e (s.mapped a ha) in
    let e2 = s.mapped b hb in ground arith

lookup-delete-some :
    (j k : ℤ) (m : List (ℤ × Addr)) (b : Addr)
    → IsMap m
    → lookup k (delete j m) ≡ some b
    → (j ≢ k) × (lookup k m ≡ some b)
lookup-delete-some j k m b h e = elim (Bool-cases (key_eq j k)) [
  | inl same ↦
      let gone : lookup k (delete j m) ≡ none = lookup-delete j k m h ∙ rw same refl in
      absurd (ground arith)
  | inr other ↦
      let kept : lookup k (delete j m) ≡ lookup k m = lookup-delete j k m h ∙ rw other refl in
      ((λ q. absurd (let t : key_eq j k ≡ true = (eq_ℤ_iff j k).1 q in ground arith)), sym kept ∙ e)
]

pub lookup-delete-ne :
    (j k : ℤ) (m : List (ℤ × Addr)) → IsMap m → j ≢ k → lookup k (delete j m) ≡ lookup k m
lookup-delete-ne j k m h n = elim (Bool-cases (key_eq j k)) [
  | inl same ↦ absurd (n ((eq_ℤ_iff j k).0 same))
  | inr other ↦ lookup-delete j k m h ∙ rw other refl
]

length-delete :
    (k : ℤ) (a : Addr) (m : List (ℤ × Addr))
    → lookup k m ≡ some a
    → length (delete k m) + 1 ≡ length m
unfolding lookup delete
length-delete k a [] e = absurd (ground arith)
length-delete k a ((j, b) ∷ m) e = elim (Bool-cases (key_eq j k)) [
  | inl here ↦ rw here (omega arith)
  | inr other ↦ rw other (omega (arith, length-delete k a m (rw other at e)))
]

length-put :
    (k : ℤ) (a : Addr) (m : List (ℤ × Addr)) → lookup k m ≡ none → length (put k a m) ≡ length m + 1
unfolding lookup put
length-put k a [] e = refl
length-put k a ((j, b) ∷ m) e = elim (Bool-cases (key_eq j k)) [
  | inl here ↦ absurd (let e' : some b ≡ none = rw here at e in ground arith)
  | inr other ↦ rw other (omega (arith, length-put k a m (rw other at e)))
]

-- `removeEntry`
pub remove_entry-IsSound :
    (c : TtlCache) (a : Addr) (cells : List Addr)
    → IsSound c cells
    → a ∈ cells
    → IsSound (remove_entry c a) (erase a cells)
unfolding remove_entry
remove_entry-IsSound c a cells s h =
    let d : TtlCache = record c { items = delete (c.heap a).key c.items } in
    let same = remove-SameData d a in
    record {
      linked =
          remove-IsLinked d a cells
            (record {
              prevs = s.linked.prevs;
              nexts = s.linked.nexts;
              head = s.linked.head;
              tail = s.linked.tail;
              distinct = s.linked.distinct;
            })
            h;
      map = subst IsMap (sym same.items) (delete-IsDistinct (c.heap a).key c.items s.map);
      listed = λ k b e.
          let e' : lookup k (delete (c.heap a).key c.items) ≡ some b =
            subst (λ m. lookup k m ≡ some b) same.items e in
          let kept = lookup-delete-some (c.heap a).key k c.items b s.map e' in
          let old = s.listed k b kept.1 in
          (
            mem-erase a b cells (λ q. kept.0 (subst (λ z. (c.heap z).key ≡ k) q old.1)) old.0,
            same.keys b ∙ old.1,
          );
      mapped = λ b m.
          let m' = erase-mem a b cells m in
          let apart : (c.heap a).key ≢ (c.heap b).key =
            λ q. erase-ne a b cells s.linked.distinct m (sym (one_entry c cells a b s h m' q)) in
          subst (λ k. lookup k (remove_entry c a).items ≡ some b) (sym (same.keys b))
            (subst (λ is. lookup (c.heap b).key is ≡ some b) (sym same.items)
              (lookup-delete-ne (c.heap a).key (c.heap b).key c.items s.map apart ∙ s.mapped b m'));
      counted =
          let kept = ap length same.items in
          let shorter = length-delete (c.heap a).key a c.items (s.mapped a h) in
          omega (arith, kept, shorter, s.counted, length-erase a cells h);
      allocated = λ b m.
          subst (λ n. ltb b n ≡ true) (sym same.next_free) (s.allocated b (erase-mem a b cells m));
    }

-- A new key takes a fresh cell.
pub insert_new-IsSound :
    (c : TtlCache) (k : ℤ) (v : PackResult) (now : ℕ) (cells : List Addr)
    → IsSound c cells
    → lookup k c.items ≡ none
    → IsSound (insert_new c k v now) (c.next_free ∷ cells)
unfolding insert_new
insert_new-IsSound c k v now cells s absent =
    let a = c.next_free in
    let out : ¬ (a ∈ cells) = λ m. (let q = s.allocated a m in ground arith) in
    let ne : (b : Addr) → b ∈ cells → (a == b) ≡ false =
      λ b m. (let q = s.allocated b m in ground arith) in
    let d : TtlCache = record c {
      heap =
          update c.heap a
            (record { key = k; value = v; expires_at = now + c.ttl; prev = none; next = none });
      items = put k a c.items;
      next_free = a + 1;
    } in
    let same = add_to_front-SameData d a in
    let self : (a == a) ≡ true = ground arith in
    let new_key : (b : Addr) → b ≡ a → (d.heap b).key ≡ k =
      λ b e. subst (λ z. (d.heap z).key ≡ k) (sym e) (rw self refl) in
    let linked : IsLinked d cells = record {
      prevs = λ b m. rw (ne b m) (s.linked.prevs b m);
      nexts = λ b m. rw (ne b m) (s.linked.nexts b m);
      head = s.linked.head;
      tail = s.linked.tail;
      distinct = s.linked.distinct;
    } in
    record {
      linked = add_to_front-IsLinked d a cells linked out;
      map = subst IsMap (sym same.items) (put-IsDistinct k a c.items s.map);
      listed = λ j b e.
          let e' : lookup j (put k a c.items) ≡ some b =
            subst (λ m. lookup j m ≡ some b) same.items e in
          elim (Bool-cases (key_eq k j)) [
            | inl here ↦
                let q : some a ≡ some b = sym (lookup-put k j a c.items ∙ rw here refl) ∙ e' in
                let b_eq : b ≡ a = ground arith in
                (inl b_eq, same.keys b ∙ new_key b b_eq ∙ (eq_ℤ_iff k j).0 here)
            | inr other ↦
                let q : lookup j c.items ≡ some b =
                  sym (lookup-put k j a c.items ∙ rw other refl) ∙ e' in
                let old = s.listed j b q in (inr old.0, same.keys b ∙ rw (ne b old.0) old.1)
          ];
      mapped = λ b m.
          subst (λ is. lookup ((insert_new c k v now).heap b).key is ≡ some b) (sym same.items)
            (subst (λ j. lookup j (put k a c.items) ≡ some b) (sym (same.keys b))
              (elim m [
                | inl here ↦
                    subst (λ j. lookup j (put k a c.items) ≡ some b) (sym (new_key b here))
                      (lookup-put k k a c.items ∙ rw ((eq_ℤ_iff k k).1 refl) (ap some (sym here)))
                | inr below ↦ rw (ne b below) (elim (Bool-cases (key_eq k (c.heap b).key)) [
                  | inl same_key ↦
                      let q : lookup k c.items ≡ some b =
                        subst (λ j. lookup j c.items ≡ some b)
                          (sym ((eq_ℤ_iff k (c.heap b).key).0 same_key)) (s.mapped b below) in
                      absurd (ground arith)
                  | inr other ↦ lookup-put k (c.heap b).key a c.items ∙ rw other (s.mapped b below)
                ])
              ]));
      counted = ap length same.items ∙ length-put k a c.items absent ∙ omega (arith, s.counted);
      allocated = λ b m.
          subst (λ n. ltb b n ≡ true) (sym same.next_free)
            (elim m [
              | inl here ↦ ground arith
              | inr below ↦ (let q = s.allocated b below in ground arith)
            ]);
    }
