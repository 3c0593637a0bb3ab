-- ===== src/TtlCache/Client.antt =====
-- The cache as the pack calculator uses it (internal/service/pack_calculator.go): a cache that
-- reads a clock in each operation.
use pack_service.Base.{
  ℕ, ◌+◌, ◌≡◌, refl, sym, subst, ◌∙◌, inl, inr, List, [], ◌∷◌, none, some, arith, ltb, Bool-cases,
  Option-cases, length, All,
}
use pack_service.Base.Int.{ℤ, eq_ℤ, eq_ℤ_iff}
use pack_service.Packs.{PackResult}
use pack_service.Packs.Calculator.{Cache}
use pack_service.Packs.Service.{CacheLaws}
use pack_service.TtlCache.{Entry, TtlCache, set, get, clear, new_ttl_cache}
use pack_service.TtlCache.Lru.{
  Item, Lru, find_item, remove_item, drop_last, get_item, set_item, clear_items,
}
use pack_service.TtlCache.Represents.{Represents, new_ttl_cache-Represents}
use pack_service.TtlCache.Refinement.{get-Represents, set-Represents, clear-Represents}

-- The cache, and the number of the operation that is next; `clock` gives each operation its time.
abbrev pub Timed : Type 0
Timed = TtlCache × ℕ

abbrev pub timed_cache : (ℕ → ℕ) → Cache Timed
timed_cache clock = record {
  get = λ c k. (let r = get c.0 k (clock c.1) in ((r.0, c.1 + 1), r.1));
  set = λ c k v. (set c.0 k v (clock c.1), c.1 + 1);
  clear = λ c. (clear c.0, c.1 + 1);
}

module _ (Good : ℤ → PackResult → Type 0) where
  IsGood : Item → Type 0
  IsGood x = Good x.key x.value

  -- All the entries are good, the expired ones too.
  pub IsKept : Timed → Type 0
  IsKept c = (s : Lru) × (Represents c.0 s × All IsGood s.entries)

  find_item-IsGood :
      (k : ℤ) (x : Item) (es : List Item)
      → find_item k es ≡ some x
      → All IsGood es
      → IsGood x × (x.key ≡ k)
  unfolding find_item
  find_item-IsGood k x [] e g = absurd (ground arith)
  find_item-IsGood k x (y ∷ es) e g = elim (Bool-cases (eq_ℤ y.key k)) [
    | inl here ↦
        let same : y ≡ x = (let q : some y ≡ some x = rw here at e in ground arith) in
        subst (λ z. IsGood z × (z.key ≡ k)) same (g.0, (eq_ℤ_iff y.key k).0 here)
    | inr other ↦ find_item-IsGood k x es (rw other at e) g.1
  ]

  remove_item-IsGood : (k : ℤ) (es : List Item) → All IsGood es → All IsGood (remove_item k es)
  unfolding remove_item
  remove_item-IsGood k [] g = tt
  remove_item-IsGood k (x ∷ es) g = elim (Bool-cases (eq_ℤ x.key k)) [
    | inl here ↦ rw here g.1
    | inr other ↦ rw other (g.0, remove_item-IsGood k es g.1)
  ]

  drop_last-IsGood : (es : List Item) → All IsGood es → All IsGood (drop_last es)
  unfolding drop_last
  drop_last-IsGood [] g = tt
  drop_last-IsGood (x ∷ []) g = tt
  drop_last-IsGood (x ∷ y ∷ es) g = (g.0, drop_last-IsGood (y ∷ es) g.1)

  get_item-IsGood :
      (s : Lru) (k : ℤ) (now : ℕ) → All IsGood s.entries → All IsGood (get_item s k now).0.entries
  unfolding get_item
  get_item-IsGood s k now g = elim (Option-cases (find_item k s.entries)) [
    | inl absent ↦ rw (absent, get_item) g
    | inr (x, e) ↦ elim (Bool-cases (ltb x.expires_at now)) [
      | inl old ↦ rw (e, old, get_item) (remove_item-IsGood k s.entries g)
      | inr kept ↦
          rw (e, kept, get_item)
            ((find_item-IsGood k x s.entries e g).0, remove_item-IsGood k s.entries g)
    ]
  ]

  get_item-Good :
      (s : Lru) (k : ℤ) (now : ℕ) (v : PackResult)
      → All IsGood s.entries
      → (get_item s k now).1 ≡ some v
      → Good k v
  unfolding get_item IsGood
  get_item-Good s k now v g e = elim (Option-cases (find_item k s.entries)) [
    | inl absent ↦
        absurd (let q : none ≡ some v = sym (rw (absent, get_item) refl) ∙ e in ground arith)
    | inr (x, found) ↦ elim (Bool-cases (ltb x.expires_at now)) [
      | inl old ↦
          absurd (let q : none ≡ some v = sym (rw (found, old, get_item) refl) ∙ e in ground arith)
      | inr kept ↦
          let q : some x.value ≡ some v = sym (rw (found, kept, get_item) refl) ∙ e in
          let same : x.value ≡ v = ground arith in
          let at_k = find_item-IsGood k x s.entries found g in
          subst (λ z. Good k z) same (subst (λ j. Good j x.value) at_k.1 at_k.0)
    ]
  ]

  set_item-IsGood :
      (s : Lru) (k : ℤ) (v : PackResult) (now : ℕ)
      → All IsGood s.entries
      → Good k v
      → All IsGood (set_item s k v now).entries
  unfolding set_item IsGood
  set_item-IsGood s k v now g q =
      let x : Item = record { key = k; value = v; expires_at = now + s.ttl } in
      elim (Option-cases (find_item k s.entries)) [
        | inl absent ↦ elim (Bool-cases (ltb s.capacity (length (x ∷ s.entries)))) [
          | inl over ↦ rw (absent, over, set_item) (drop_last-IsGood (x ∷ s.entries) (q, g))
          | inr fits ↦ rw (absent, fits, set_item) (q, g)
        ]
        | inr (y, e) ↦ rw (e, set_item) (q, remove_item-IsGood k s.entries g)
      ]

  -- Whatever the clock says, the cache returns for a key nothing but what was set under this key:
  -- it has what the calculator relies on in a cache, for every choice of the results that may be
  -- stored.
  pub timed_cache-CacheLaws : (clock : ℕ → ℕ) → CacheLaws (timed_cache clock) Good IsKept
  unfolding IsKept clear_items
  timed_cache-CacheLaws clock = record {
    get_keeps = λ c k h.
        let r = get-Represents c.0 h.0 k (clock c.1) h.1.0 in
        ((get_item h.0 k (clock c.1)).0, (r.1, get_item-IsGood h.0 k (clock c.1) h.1.1));
    get_good = λ c k v h e.
        let r = get-Represents c.0 h.0 k (clock c.1) h.1.0 in
        get_item-Good h.0 k (clock c.1) v h.1.1 (sym r.0 ∙ e);
    set_keeps = λ c k v h q. (
      set_item h.0 k v (clock c.1),
      (set-Represents c.0 h.0 k v (clock c.1) h.1.0, set_item-IsGood h.0 k v (clock c.1) h.1.1 q),
    );
    clear_keeps = λ c h. (clear_items h.0, (clear-Represents c.0 h.0 h.1.0, tt));
  }

  -- A new cache keeps nothing.
  pub new_ttl_cache-IsKept :
      (capacity ttl : ℕ) (unallocated : ℕ → Entry)
      → IsKept (new_ttl_cache capacity ttl unallocated, 0)
  unfolding IsKept
  new_ttl_cache-IsKept capacity ttl unallocated =
      (_, (new_ttl_cache-Represents capacity ttl unallocated, tt))
