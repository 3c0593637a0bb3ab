-- ===== src/TtlCache/Lru.antt =====
-- What a cache promises, without pointers and without a map: a list of entries, the most recently
-- used first. The operations below are the specification of those of internal/service/cache.go.
use pack_service.Base.{
  ℕ, ◌+◌, ◌≡◌, ◌≢◌, refl, sym, ap, subst, inl, inr, true, false, List, [], ◌∷◌, Option, none, some,
  arith, ltb, ◌==◌, if◌then◌else◌, Bool-cases, ◌∈◌, length,
}
use pack_service.Base.Int.{ℤ, eq_ℤ, eq_ℤ_iff}
use pack_service.Packs.{PackResult}
use pack_service.TtlCache.{Addr, TtlCache}
use pack_service.TtlCache.Links.{erase, last_from, IsDistinct}
use pack_service.TtlCache.Pointers.{SameData}

pub record Item : Type 0 where
  pub key : ℤ
  pub value : PackResult
  pub expires_at : ℕ

pub record Lru : Type 0 where
  pub capacity : ℕ
  pub ttl : ℕ
  pub entries : List Item

unfoldable pub find_item : ℤ → List Item → Option Item
find_item k [] = none
find_item k (x ∷ xs) = if eq_ℤ x.key k then some x else find_item k xs

unfoldable pub remove_item : ℤ → List Item → List Item
remove_item k [] = []
remove_item k (x ∷ xs) = if eq_ℤ x.key k then xs else x ∷ remove_item k xs

unfoldable pub drop_last : {A : Type 0} → List A → List A
drop_last [] = []
drop_last (x ∷ []) = []
drop_last (x ∷ y ∷ xs) = x ∷ drop_last (y ∷ xs)

-- A hit makes its entry the first one, and an expired entry goes.
unfoldable pub get_item : Lru → ℤ → ℕ → Lru × Option PackResult
get_item s k now = elim (find_item k s.entries) [
  | none ↦ (s, none)
  | some x ↦
      let others = remove_item k s.entries in
      if ltb x.expires_at now
      then (record s { entries = others }, none)
      else (record s { entries = x ∷ others }, some x.value)
]

-- The entry for the key is the first one, and over the capacity the last entry goes.
unfoldable pub set_item : Lru → ℤ → PackResult → ℕ → Lru
set_item s k v now =
    let x : Item = record { key = k; value = v; expires_at = now + s.ttl } in
    elim (find_item k s.entries) [
      | none ↦
          let longer = x ∷ s.entries in
          record s { entries = if ltb s.capacity (length longer) then drop_last longer else longer }
      | some _ ↦ record s { entries = x ∷ remove_item k s.entries }
    ]

unfoldable pub invalidate_item : Lru → ℤ → Lru
invalidate_item s k = record s { entries = remove_item k s.entries }

unfoldable pub clear_items : Lru → Lru
clear_items s = record s { entries = [] }

-- The entry in a cell, and the entries in a list of cells.
abbrev pub item_at : TtlCache → Addr → Item
item_at c a = record {
  key = (c.heap a).key;
  value = (c.heap a).value;
  expires_at = (c.heap a).expires_at;
}

unfoldable pub view : TtlCache → List Addr → List Item
view c [] = []
view c (a ∷ cells) = item_at c a ∷ view c cells

pub view-eq :
    (c d : TtlCache) (cells : List Addr)
    → ((a : Addr) → a ∈ cells → item_at d a ≡ item_at c a)
    → view d cells ≡ view c cells
unfolding view
view-eq c d [] h = refl
view-eq c d (a ∷ cells) h = rw (h a (inl refl), view-eq c d cells (λ b m. h b (inr m))) refl

pub item_at-SameData : {c d : TtlCache} → SameData c d → (a : Addr) → item_at d a ≡ item_at c a
item_at-SameData same a = rw (same.keys a, same.values a, same.expiries a) refl

pub view-SameData :
    {c d : TtlCache} → SameData c d → (cells : List Addr) → view d cells ≡ view c cells
view-SameData {c} {d} same cells = view-eq c d cells (λ a m. item_at-SameData same a)

pub length-view : (c : TtlCache) (cells : List Addr) → length (view c cells) ≡ length cells
unfolding view
length-view c [] = refl
length-view c (a ∷ cells) = omega (arith, length-view c cells)

-- The entry `a` is the only one with its key.
pub find_item-view :
    (c : TtlCache) (k : ℤ) (a : Addr) (cells : List Addr)
    → a ∈ cells
    → (c.heap a).key ≡ k
    → ((b : Addr) → b ∈ cells → (c.heap b).key ≡ k → b ≡ a)
    → (find_item k (view c cells) ≡ some (item_at c a))
      × (remove_item k (view c cells) ≡ view c (erase a cells))
unfolding view find_item remove_item erase
find_item-view c k a [] m e only = absurd m
find_item-view c k a (x ∷ xs) m e only = elim (Bool-cases (eq_ℤ (c.heap x).key k)) [
  | inl here ↦
      let same : x ≡ a = only x (inl refl) ((eq_ℤ_iff (c.heap x).key k).0 here) in
      let test : (x == a) ≡ true = ground arith in
      (rw here (ap (λ z. some (item_at c z)) same), rw (here, test) refl)
  | inr other ↦
      let apart : x ≢ a = λ q.
        (let t : eq_ℤ (c.heap x).key k ≡ true =
            (eq_ℤ_iff (c.heap x).key k).1 (subst (λ z. (c.heap z).key ≡ k) (sym q) e) in
          ground arith) in
      let test : (x == a) ≡ false = ground (arith, apart) in
      let below : a ∈ xs = elim m [ inl q ↦ absurd (apart (sym q)) | inr n ↦ n ] in
      let rest = find_item-view c k a xs below e (λ b n. only b (inr n)) in
      (rw other rest.0, rw (other, test) (ap (λ z. item_at c x ∷ z) rest.1))
]

pub find_item-view-none :
    (c : TtlCache) (k : ℤ) (cells : List Addr)
    → ((b : Addr) → b ∈ cells → (c.heap b).key ≢ k)
    → (find_item k (view c cells) ≡ none) × (remove_item k (view c cells) ≡ view c cells)
unfolding view find_item remove_item
find_item-view-none c k [] n = (refl, refl)
find_item-view-none c k (x ∷ xs) n = elim (Bool-cases (eq_ℤ (c.heap x).key k)) [
  | inl here ↦ absurd (n x (inl refl) ((eq_ℤ_iff (c.heap x).key k).0 here))
  | inr other ↦
      let rest = find_item-view-none c k xs (λ b m. n b (inr m)) in
      (rw other rest.0, rw other (ap (λ z. item_at c x ∷ z) rest.1))
]

pub view-drop_last :
    (c : TtlCache) (cells : List Addr) → view c (drop_last cells) ≡ drop_last (view c cells)
unfolding view drop_last
view-drop_last c [] = refl
view-drop_last c (x ∷ []) = refl
view-drop_last c (x ∷ y ∷ xs) = ap (λ z. item_at c x ∷ z) (view-drop_last c (y ∷ xs))

pub last_from-mem :
    (p : Option Addr) (x : Addr) (xs : List Addr)
    → (t : Addr) × ((last_from p (x ∷ xs) ≡ some t) × (t ∈ x ∷ xs))
unfolding last_from
last_from-mem p x [] = (x, (refl, inl refl))
last_from-mem p x (y ∷ xs) =
    let rest = last_from-mem (some x) y xs in (rest.0, (rest.1.0, inr rest.1.1))

-- Taking the last address out leaves the others.
pub erase-last :
    (p : Option Addr) (x : Addr) (xs : List Addr) (t : Addr)
    → IsDistinct (x ∷ xs)
    → last_from p (x ∷ xs) ≡ some t
    → erase t (x ∷ xs) ≡ drop_last (x ∷ xs)
unfolding last_from erase drop_last
erase-last p x [] t d e = (let test : (x == t) ≡ true = ground arith in rw test refl)
erase-last p x (y ∷ xs) t d e =
    let last = last_from-mem (some x) y xs in
    let test : (x == t) ≡ false = ground (
      arith,
      λ (q : x ≡ t). d.0 (
          let same : last.0 ≡ x = (let last_eq = last.1.0 in ground arith) in
          subst (λ z. z ∈ y ∷ xs) same last.1.1),
    ) in
    rw test (ap (λ z. x ∷ z) (erase-last (some x) y xs t d.1 e))
