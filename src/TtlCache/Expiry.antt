-- ===== src/TtlCache/Expiry.antt =====
-- `cleanup`: the expired entries go, and the others stay in their order.
use pack_service.Base.{
  ℕ, ◌≡◌, ◌≢◌, refl, sym, ap, subst, ◌∙◌, inl, inr, ◌⊎◌, true, false, List, [], ◌∷◌, none, some,
  arith, ltb, if◌then◌else◌, Bool-cases, Option-cases, ◌∈◌, All,
}
use pack_service.Base.Int.{ℤ, eq_ℤ, eq_ℤ_iff}
use pack_service.Base.Dict.{int_eq, lookup, ◌==◌ as key_eq, IsDistinct as IsMap}
use pack_service.TtlCache.{Addr, TtlCache, remove_entry, cleanup_from, cleanup}
use pack_service.TtlCache.Links.{IsDistinct}
use pack_service.TtlCache.Pointers.{remove-SameData}
use pack_service.TtlCache.Invariant.{one_entry, lookup-delete-ne}
use pack_service.TtlCache.Lru.{Item, Lru, find_item, remove_item, view, find_item-view-none}
use pack_service.TtlCache.Represents.{Represents, found, remove_entry-Represents}

-- The specification: the entries that have not expired, in their order.
unfoldable pub live_items : ℕ → List Item → List Item
live_items now [] = []
live_items now (x ∷ es) =
    let rest = live_items now es in if ltb x.expires_at now then rest else x ∷ rest

-- What one round of the loop does to the entries.
sweep_one : ℕ → ℤ → List Item → List Item
sweep_one now k es = elim (find_item k es) [
  | none ↦ es
  | some x ↦ if ltb x.expires_at now then remove_item k es else es
]

sweep : ℕ → List (ℤ × Addr) → List Item → List Item
sweep now [] es = es
sweep now ((k, a) ∷ items) es = sweep now items (sweep_one now k es)

abbrev round_of : TtlCache → Addr → ℕ → TtlCache
round_of c a now = if ltb (c.heap a).expires_at now then remove_entry c a else c

round_of-Represents :
    (c : TtlCache) (s : Lru) (k : ℤ) (a : Addr) (now : ℕ)
    → Represents c s
    → lookup k c.items ≡ some a
    → Represents (round_of c a now) (record s { entries = sweep_one now k s.entries })
unfolding sweep_one
round_of-Represents c s k a now r e =
    let f = found c s k a r e in
    elim (Bool-cases (ltb (c.heap a).expires_at now)) [
      | inl old ↦
          rw (f.0, sweep_one, old)
            (remove_entry-Represents c s a (remove_item k s.entries) r (r.sound.listed k a e).0
              (sym f.1))
      | inr kept ↦ rw (f.0, sweep_one, kept) r
    ]

round_of-lookup :
    (c : TtlCache) (s : Lru) (k j : ℤ) (a : Addr) (now : ℕ)
    → Represents c s
    → lookup k c.items ≡ some a
    → k ≢ j
    → lookup j (round_of c a now).items ≡ lookup j c.items
unfolding remove_entry
round_of-lookup c s k j a now r e n = elim (Bool-cases (ltb (c.heap a).expires_at now)) [
  | inl old ↦
      let key : (c.heap a).key ≡ k = (r.sound.listed k a e).1 in
      rw old (
        ap (lookup j) (remove-SameData (record c { items = _ }) a).items
        ∙ lookup-delete-ne (c.heap a).key j c.items r.sound.map (λ q. n (sym key ∙ q)))
  | inr kept ↦ rw kept refl
]

cleanup_from-Represents :
    (items : List (ℤ × Addr)) (c : TtlCache) (s : Lru) (now : ℕ)
    → IsMap items
    → ((k : ℤ) (a : Addr) → lookup k items ≡ some a → lookup k c.items ≡ some a)
    → Represents c s
    → Represents (cleanup_from items c now) (record s { entries = sweep now items s.entries })
unfolding cleanup_from sweep lookup
cleanup_from-Represents [] c s now m h r = r
cleanup_from-Represents ((k, a) ∷ items) c s now m h r =
    let self : key_eq k k ≡ true = (eq_ℤ_iff k k).1 refl in
    let e : lookup k c.items ≡ some a = h k a (rw self refl) in
    cleanup_from-Represents items (round_of c a now) _ now m.1
      (λ j b q.
        let apart : k ≢ j = λ same.
          (let gone : lookup j items ≡ none = ap (λ z. lookup z items) (sym same) ∙ m.0 in
            absurd (ground arith)) in
        let test : key_eq k j ≡ false = elim (Bool-cases (key_eq k j)) [
          | inl t ↦ absurd (apart ((eq_ℤ_iff k j).0 t))
          | inr t ↦ t
        ] in
        round_of-lookup c s k j a now r e apart ∙ h j b (rw test q))
      (round_of-Represents c s k a now r e)

-- No two entries have one key.
abbrev HasDistinctKeys : List Item → Type 0
HasDistinctKeys [] = Unit
HasDistinctKeys (x ∷ es) = (find_item x.key es ≡ none) × HasDistinctKeys es

module _ (now : ℕ) where
  -- Every entry is live, or its key is still to come.
  abbrev IsCovered : List (ℤ × Addr) → Item → Type 0
  IsCovered items x = (ltb x.expires_at now ≡ false) ⊎ ((a : Addr) × (lookup x.key items ≡ some a))

  sweep_one_here :
      (k : ℤ) (x : Item) (es : List Item)
      → eq_ℤ x.key k ≡ true
      → sweep_one now k (x ∷ es) ≡ (if ltb x.expires_at now then es else x ∷ es)
  unfolding sweep_one find_item remove_item
  sweep_one_here k x es e = rw (e, sweep_one, e) refl

  sweep_one_below :
      (k : ℤ) (x : Item) (es : List Item)
      → eq_ℤ x.key k ≡ false
      → sweep_one now k (x ∷ es) ≡ x ∷ sweep_one now k es
  unfolding sweep_one find_item remove_item
  sweep_one_below k x es e = elim (Option-cases (find_item k es)) [
    | inl absent ↦ rw (e, absent, sweep_one) refl
    | inr (y, here) ↦ elim (Bool-cases (ltb y.expires_at now)) [
      | inl old ↦ rw (e, here, sweep_one, old, e) refl
      | inr kept ↦ rw (e, here, sweep_one, kept) refl
    ]
  ]

  live-sweep_one :
      (k : ℤ) (es : List Item) → live_items now (sweep_one now k es) ≡ live_items now es
  unfolding live_items sweep_one find_item
  live-sweep_one k [] = refl
  live-sweep_one k (x ∷ es) = elim (Bool-cases (eq_ℤ x.key k)) [
    | inl here ↦ elim (Bool-cases (ltb x.expires_at now)) [
      | inl old ↦ rw (sweep_one_here k x es here, old) refl
      | inr kept ↦
          ap (live_items now) {x = sweep_one now k (x ∷ es)} {y = x ∷ es}
            (sweep_one_here k x es here ∙ rw kept refl)
    ]
    | inr below ↦ rw (sweep_one_below k x es below, live-sweep_one k es) refl
  ]

  find_item-sweep_one :
      (k j : ℤ) (es : List Item) → find_item j es ≡ none → find_item j (sweep_one now k es) ≡ none
  unfolding find_item sweep_one
  find_item-sweep_one k j [] e = e
  find_item-sweep_one k j (x ∷ es) e =
      let other : eq_ℤ x.key j ≡ false = elim (Bool-cases (eq_ℤ x.key j)) [
        | inl t ↦ absurd (let q : some x ≡ none = rw t at e in ground arith)
        | inr f ↦ f
      ] in
      let rest : find_item j es ≡ none = rw other at e in
      elim (Bool-cases (eq_ℤ x.key k)) [
        | inl here ↦ elim (Bool-cases (ltb x.expires_at now)) [
          | inl old ↦ rw (sweep_one_here k x es here, old) rest
          | inr kept ↦ rw (sweep_one_here k x es here, kept) e
        ]
        | inr below ↦ rw (sweep_one_below k x es below, other) (find_item-sweep_one k j es rest)
      ]

  sweep_one-HasDistinctKeys :
      (k : ℤ) (es : List Item) → HasDistinctKeys es → HasDistinctKeys (sweep_one now k es)
  unfolding sweep_one find_item
  sweep_one-HasDistinctKeys k [] d = tt
  sweep_one-HasDistinctKeys k (x ∷ es) d = elim (Bool-cases (eq_ℤ x.key k)) [
    | inl here ↦ elim (Bool-cases (ltb x.expires_at now)) [
      | inl old ↦ rw (sweep_one_here k x es here, old) d.1
      | inr kept ↦ rw (sweep_one_here k x es here, kept) d
    ]
    | inr below ↦
        rw (sweep_one_below k x es below)
          (find_item-sweep_one k x.key es d.0, sweep_one-HasDistinctKeys k es d.1)
  ]

  IsCovered-other :
      (k : ℤ) (a : Addr) (items : List (ℤ × Addr)) (x : Item)
      → eq_ℤ x.key k ≡ false
      → IsCovered ((k, a) ∷ items) x
      → IsCovered items x
  unfolding lookup
  IsCovered-other k a items x other (inl kept) = inl kept
  IsCovered-other k a items x other (inr (b, e)) =
      let test : key_eq k x.key ≡ false = elim (Bool-cases (key_eq k x.key)) [
        | inl t ↦ absurd (
            let q : eq_ℤ x.key k ≡ true = (eq_ℤ_iff x.key k).1 (sym ((eq_ℤ_iff k x.key).0 t)) in
            ground arith)
        | inr f ↦ f
      ] in
      inr (b, rw test at e)

  IsCovered-absent :
      (k : ℤ) (a : Addr) (items : List (ℤ × Addr)) (es : List Item)
      → find_item k es ≡ none
      → All (IsCovered ((k, a) ∷ items)) es
      → All (IsCovered items) es
  unfolding find_item
  IsCovered-absent k a items [] e c = tt
  IsCovered-absent k a items (x ∷ es) e c = elim (Bool-cases (eq_ℤ x.key k)) [
    | inl here ↦ absurd (let q : some x ≡ none = rw here at e in ground arith)
    | inr below ↦
        (IsCovered-other k a items x below c.0, IsCovered-absent k a items es (rw below at e) c.1)
  ]

  IsCovered-sweep_one :
      (k : ℤ) (a : Addr) (items : List (ℤ × Addr)) (es : List Item)
      → HasDistinctKeys es
      → All (IsCovered ((k, a) ∷ items)) es
      → All (IsCovered items) (sweep_one now k es)
  unfolding sweep_one find_item
  IsCovered-sweep_one k a items [] d c = tt
  IsCovered-sweep_one k a items (x ∷ es) d c = elim (Bool-cases (eq_ℤ x.key k)) [
    | inl here ↦
        let gone : find_item k es ≡ none =
          subst (λ j. find_item j es ≡ none) ((eq_ℤ_iff x.key k).0 here) d.0 in
        let rest = IsCovered-absent k a items es gone c.1 in
        elim (Bool-cases (ltb x.expires_at now)) [
          | inl old ↦ rw (sweep_one_here k x es here, old) rest
          | inr kept ↦ rw (sweep_one_here k x es here, kept) (inl kept, rest)
        ]
    | inr below ↦
        rw (sweep_one_below k x es below)
          (IsCovered-other k a items x below c.0, IsCovered-sweep_one k a items es d.1 c.1)
  ]

  live_items-IsCovered : (es : List Item) → All (IsCovered []) es → live_items now es ≡ es
  unfolding live_items lookup
  live_items-IsCovered [] c = refl
  live_items-IsCovered (x ∷ es) c = elim c.0 [
    | inl kept ↦ rw (kept, live_items-IsCovered es c.1) refl
    | inr (b, e) ↦ absurd (ground arith)
  ]

  sweep-live_items :
      (items : List (ℤ × Addr)) (es : List Item)
      → HasDistinctKeys es
      → All (IsCovered items) es
      → sweep now items es ≡ live_items now es
  unfolding sweep
  sweep-live_items [] es d c = sym (live_items-IsCovered es c)
  sweep-live_items ((k, a) ∷ items) es d c =
      sweep-live_items items (sweep_one now k es) (sweep_one-HasDistinctKeys k es d)
        (IsCovered-sweep_one k a items es d c)
      ∙ live-sweep_one k es

module _ (c : TtlCache) where
  -- The cells below one entry hold no entry with its key.
  view-HasDistinctKeys :
      (cells : List Addr)
      → IsDistinct cells
      → ((a b : Addr) → a ∈ cells → b ∈ cells → (c.heap a).key ≡ (c.heap b).key → a ≡ b)
      → HasDistinctKeys (view c cells)
  unfolding view
  view-HasDistinctKeys [] d one = tt
  view-HasDistinctKeys (a ∷ cells) d one = (
    (find_item-view-none c (c.heap a).key cells
        (λ b m e. d.0 (subst (λ z. z ∈ cells) (one b a (inr m) (inl refl) e) m))).0,
    view-HasDistinctKeys cells d.1 (λ x y mx my. one x y (inr mx) (inr my)),
  )

  view-IsCovered :
      (now : ℕ) (cells : List Addr)
      → ((a : Addr) → a ∈ cells → lookup (c.heap a).key c.items ≡ some a)
      → All (IsCovered now c.items) (view c cells)
  unfolding view
  view-IsCovered now [] h = tt
  view-IsCovered now (a ∷ cells) h =
      (inr (a, h a (inl refl)), view-IsCovered now cells (λ b m. h b (inr m)))

-- If a cache represents a list of entries, the cache after `cleanup` represents the entries of the
-- list that have not expired, in their order.
pub cleanup-Represents :
    (c : TtlCache) (s : Lru) (now : ℕ)
    → Represents c s
    → Represents (cleanup c now) (record s { entries = live_items now s.entries })
unfolding cleanup
cleanup-Represents c s now r =
    let keys : HasDistinctKeys s.entries = subst HasDistinctKeys r.entries (
      view-HasDistinctKeys c r.cells r.sound.linked.distinct
        (λ a b ma mb. one_entry c r.cells a b r.sound ma mb)) in
    let covered : All (IsCovered now c.items) s.entries =
      subst (All (IsCovered now c.items)) r.entries (view-IsCovered c now r.cells r.sound.mapped) in
    subst (λ es. Represents (cleanup c now) (record s { entries = es }))
      (sweep-live_items now c.items s.entries keys covered)
      (cleanup_from-Represents c.items c s now r.sound.map (λ k a e. e) r)
