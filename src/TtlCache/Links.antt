-- ===== src/TtlCache/Links.antt =====
-- The neighbours of an address in a list, and what taking an address out of the list does to them.
-- Nothing here is about the heap.
use pack_service.Base.{
  ◌≡◌, ◌≢◌, refl, sym, ap, subst, inl, inr, ◌⊎◌, false, List, [], ◌∷◌, Option, none, some, arith,
  ◌==◌, if◌then◌else◌, Bool-cases, ◌∈◌, length, ◌+◌,
}
use pack_service.TtlCache.{Addr, points_to}

unfoldable pub head_of : List Addr → Option Addr
head_of [] = none
head_of (x ∷ xs) = some x

-- The last address, or `p` if there is none.
unfoldable pub last_from : Option Addr → List Addr → Option Addr
last_from p [] = p
last_from p (x ∷ xs) = last_from (some x) xs

-- The address before `b`, where `p` stands before the list.
unfoldable pub prev_in : Option Addr → List Addr → Addr → Option Addr
prev_in p [] b = none
prev_in p (x ∷ xs) b = if x == b then p else prev_in (some x) xs b

unfoldable pub next_in : List Addr → Addr → Option Addr
next_in [] b = none
next_in (x ∷ xs) b = if x == b then head_of xs else next_in xs b

unfoldable pub erase : Addr → List Addr → List Addr
erase a [] = []
erase a (x ∷ xs) = if x == a then xs else x ∷ erase a xs

abbrev pub IsDistinct : List Addr → Type 0
IsDistinct [] = Unit
IsDistinct (x ∷ xs) = (¬ (x ∈ xs)) × IsDistinct xs

pub erase-mem : (a b : Addr) (xs : List Addr) → b ∈ erase a xs → b ∈ xs
unfolding erase
erase-mem a b [] h = h
erase-mem a b (x ∷ xs) h = elim (Bool-cases (x == a)) [
  | inl e ↦ inr (rw e at h)
  | inr e ↦ elim (let h' : (b ≡ x) ⊎ (b ∈ erase a xs) = rw e at h in h') [
    | inl here ↦ inl here
    | inr below ↦ inr (erase-mem a b xs below)
  ]
]

pub mem-erase : (a b : Addr) (xs : List Addr) → b ≢ a → b ∈ xs → b ∈ erase a xs
unfolding erase
mem-erase a b [] n h = h
mem-erase a b (x ∷ xs) n h = elim (Bool-cases (x == a)) [
  | inl e ↦ rw e (elim h [ inl here ↦ absurd (n (ground arith)) | inr below ↦ below ])
  | inr e ↦ rw e (elim h [ inl here ↦ inl here | inr below ↦ inr (mem-erase a b xs n below) ])
]

pub erase-ne : (a b : Addr) (xs : List Addr) → IsDistinct xs → b ∈ erase a xs → b ≢ a
unfolding erase
erase-ne a b [] d h = absurd h
erase-ne a b (x ∷ xs) d h = elim (Bool-cases (x == a)) [
  | inl e ↦ let h' : b ∈ xs = rw e at h in λ same. d.0 (let e' : x ≡ b = ground arith in rw e' h')
  | inr e ↦ elim (let h' : (b ≡ x) ⊎ (b ∈ erase a xs) = rw e at h in h') [
    | inl here ↦ λ same. absurd (ground arith)
    | inr below ↦ erase-ne a b xs d.1 below
  ]
]

pub erase-IsDistinct : (a : Addr) (xs : List Addr) → IsDistinct xs → IsDistinct (erase a xs)
unfolding erase
erase-IsDistinct a [] d = tt
erase-IsDistinct a (x ∷ xs) d = elim (Bool-cases (x == a)) [
  | inl e ↦ rw e d.1
  | inr e ↦ rw e ((λ h. d.0 (erase-mem a x xs h)), erase-IsDistinct a xs d.1)
]

pub length-erase : (a : Addr) (xs : List Addr) → a ∈ xs → length (erase a xs) + 1 ≡ length xs
unfolding erase
length-erase a [] h = absurd h
length-erase a (x ∷ xs) h = elim (Bool-cases (x == a)) [
  | inl e ↦ rw e (omega arith)
  | inr e ↦ rw e (elim h [
    | inl here ↦ absurd (ground arith)
    | inr below ↦ omega (arith, length-erase a xs below)
  ])
]

-- What stands before an address is `p` or in the list, and what stands after it is in the list.
pub prev_in-mem :
    (p : Option Addr) (xs : List Addr) (a b : Addr)
    → prev_in p xs a ≡ some b
    → (p ≡ some b) ⊎ (b ∈ xs)
unfolding prev_in
prev_in-mem p [] a b e = absurd (ground arith)
prev_in-mem p (x ∷ xs) a b e = elim (Bool-cases (x == a)) [
  | inl here ↦ inl (rw here at e)
  | inr other ↦ elim (prev_in-mem (some x) xs a b (rw other at e)) [
    | inl same ↦ inr (inl (ground arith))
    | inr below ↦ inr (inr below)
  ]
]

pub next_in-mem : (xs : List Addr) (a b : Addr) → next_in xs a ≡ some b → b ∈ xs
unfolding next_in head_of
next_in-mem [] a b e = absurd (ground arith)
next_in-mem (x ∷ []) a b e = absurd (ground arith)
next_in-mem (x ∷ y ∷ xs) a b e = elim (Bool-cases (x == a)) [
  | inl here ↦ inr (inl (ground arith))
  | inr other ↦ inr (next_in-mem (y ∷ xs) a b (rw other at e))
]

prev_in-some :
    (x : Addr) (xs : List Addr) (a : Addr) → a ∈ xs → (b : Addr) × (prev_in (some x) xs a ≡ some b)
unfolding prev_in
prev_in-some x [] a h = absurd h
prev_in-some x (y ∷ xs) a h = elim (Bool-cases (y == a)) [
  | inl here ↦ (x, rw here)
  | inr other ↦ elim h [
    | inl e ↦ absurd (ground arith)
    | inr below ↦ rw other (prev_in-some y xs a below)
  ]
]

points_to-none : (o : Option Addr) (b : Addr) → ((o ≡ some b) → ⊥) → points_to o b ≡ false
points_to-none none b h = refl
points_to-none (some x) b h = ground (arith, λ (e : x ≡ b). h (ap some e))

module _ (a b : Addr) (apart : b ≢ a) where
  next_in-erase_at :
      (x : Addr) (xs : List Addr)
      → (¬ (x ∈ xs))
      → a ∈ xs
      → x ≡ b
      → head_of (erase a xs)
        ≡ (if points_to (prev_in (some x) xs a) b then next_in xs a else head_of xs)
  unfolding next_in erase prev_in head_of
  next_in-erase_at x [] n h e = absurd h
  next_in-erase_at x (y ∷ ys) n h e = elim (Bool-cases (y == a)) [
    | inl at_a ↦ ground arith
    | inr other ↦
        let not_b : points_to (prev_in (some y) ys a) b ≡ false =
          points_to-none (prev_in (some y) ys a) b (λ q. elim (prev_in-mem (some y) ys a b q) [
            | inl same ↦ n (inl (ground arith))
            | inr below ↦ n (inr (subst (λ z. z ∈ ys) (sym e) below))
          ]) in
        rw (other, not_b)
  ]

  pub next_in-erase :
      (p : Option Addr) (xs : List Addr)
      → IsDistinct xs
      → a ∈ xs
      → points_to p b ≡ false
      → next_in (erase a xs) b
        ≡ (if points_to (prev_in p xs a) b then next_in xs a else next_in xs b)
  unfolding next_in erase prev_in head_of
  next_in-erase p [] d h q = absurd h
  next_in-erase p (x ∷ xs) d h q = elim (Bool-cases (x == a)) [
    | inl at_a ↦ ground arith
    | inr other ↦
        let below : a ∈ xs = elim h [ inl e ↦ absurd (ground arith) | inr m ↦ m ] in
        elim (Bool-cases (x == b)) [
          | inl at_b ↦ rw (other, at_b) (next_in-erase_at x xs d.0 below (ground arith))
          | inr not_b ↦ rw (other, not_b) (next_in-erase (some x) xs d.1 below not_b)
        ]
  ]

  pub prev_in-erase :
      (p : Option Addr) (xs : List Addr)
      → IsDistinct xs
      → a ∈ xs
      → prev_in p (erase a xs) b
        ≡ (if points_to (next_in xs a) b then prev_in p xs a else prev_in p xs b)
  unfolding next_in erase prev_in head_of
  prev_in-erase p [] d h = absurd h
  prev_in-erase p (x ∷ []) d h = ground (arith, h)
  prev_in-erase p (x ∷ y ∷ ys) d h = elim (Bool-cases (x == a)) [
    | inl at_a ↦ ground arith
    | inr other ↦
        let below : a ∈ y ∷ ys = elim h [ inl e ↦ absurd (ground arith) | inr m ↦ m ] in
        elim (Bool-cases (x == b)) [
          | inl at_b ↦
              let not_next : points_to (next_in (y ∷ ys) a) b ≡ false =
                points_to-none (next_in (y ∷ ys) a) b (λ q.
                  let e : x ≡ b = ground arith in
                  d.0 (subst (λ z. z ∈ y ∷ ys) (sym e) (next_in-mem (y ∷ ys) a b q))) in
              rw (other, at_b, not_next)
          | inr not_b ↦ rw (other, not_b) (prev_in-erase (some x) (y ∷ ys) d.1 below)
        ]
  ]

pub head_of-erase :
    (a : Addr) (xs : List Addr)
    → a ∈ xs
    → head_of (erase a xs) ≡ elim (prev_in none xs a) [ none ↦ next_in xs a | some _ ↦ head_of xs ]
unfolding next_in erase prev_in head_of
head_of-erase a [] h = absurd h
head_of-erase a (x ∷ xs) h = elim (Bool-cases (x == a)) [
  | inl at_a ↦ ground arith
  | inr other ↦
      let below : a ∈ xs = elim h [ inl e ↦ absurd (ground arith) | inr m ↦ m ] in
      ground (arith, (prev_in-some x xs a below).1)
]

pub last_from-erase :
    (p : Option Addr) (a : Addr) (xs : List Addr)
    → a ∈ xs
    → last_from p (erase a xs)
      ≡ elim (next_in xs a) [ none ↦ prev_in p xs a | some _ ↦ last_from p xs ]
unfolding next_in erase prev_in head_of last_from
last_from-erase p a [] h = absurd h
last_from-erase p a (x ∷ []) h = ground arith
last_from-erase p a (x ∷ y ∷ ys) h = elim (Bool-cases (x == a)) [
  | inl at_a ↦ ground arith
  | inr other ↦
      let below : a ∈ y ∷ ys = elim h [ inl e ↦ absurd (ground arith) | inr m ↦ m ] in
      ground (arith, last_from-erase (some x) a (y ∷ ys) below)
]
