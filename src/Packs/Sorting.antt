-- ===== src/Packs/Sorting.antt =====
-- The sort of the pack sizes: it keeps the sizes, and leaves the smallest one last.
use pack_service.Base.{
  ℕ, ◌+◌, ◌≤◌, ◌≡◌, refl, subst, ◌⊎◌, inl, inr, List, [], ◌∷◌, arith, Bool-cases, ◌≢◌,
}
use pack_service.Base.{◌∈◌, All, returns}
use pack_service.Base.Int.{ℤ, pos, negsuc, pos_part, leb_ℤ, ◌≤ℤ◌}
use pack_service.Base.Machine.{max_int}
use pack_service.Packs.{PackResult, Pack}
use pack_service.Packs.Selection.{IsPositive, IsSelection, IsLine, IsBest}
use pack_service.Packs.Calculator.{insert_descending, sort_descending, last_size}
use pack_service.Packs.Fill.{All-lookup}
use pack_service.Packs.Optimal.{IsMenu, InRange}

insert_descending-mem : (y z : ℤ) (zs : List ℤ) → y ∈ insert_descending z zs → (y ≡ z) ⊎ (y ∈ zs)
unfolding insert_descending
insert_descending-mem y z [] h = h
insert_descending-mem y z (x ∷ zs) h = elim (Bool-cases (leb_ℤ x z)) [
  | inl e ↦ rw e at h
  | inr e ↦ elim (let h' : (y ≡ x) ⊎ (y ∈ insert_descending z zs) = rw e at h in h') [
    | inl here ↦ inr (inl here)
    | inr below ↦ elim (insert_descending-mem y z zs below) [ inl a ↦ inl a | inr b ↦ inr (inr b) ]
  ]
]

mem-insert_descending : (y z : ℤ) (zs : List ℤ) → (y ≡ z) ⊎ (y ∈ zs) → y ∈ insert_descending z zs
unfolding insert_descending
mem-insert_descending y z [] h = h
mem-insert_descending y z (x ∷ zs) h = elim (Bool-cases (leb_ℤ x z)) [
  | inl e ↦ rw e h
  | inr e ↦ rw e (elim h [
    | inl here ↦ inr (mem-insert_descending y z zs (inl here))
    | inr (inl at_x) ↦ inl at_x
    | inr (inr below) ↦ inr (mem-insert_descending y z zs (inr below))
  ])
]

pub sort_descending-mem : (y : ℤ) (zs : List ℤ) → y ∈ sort_descending zs → y ∈ zs
unfolding sort_descending
sort_descending-mem y [] h = h
sort_descending-mem y (z ∷ zs) h = elim (insert_descending-mem y z (sort_descending zs) h) [
  | inl e ↦ inl e
  | inr m ↦ inr (sort_descending-mem y zs m)
]

pub mem-sort_descending : (y : ℤ) (zs : List ℤ) → y ∈ zs → y ∈ sort_descending zs
unfolding sort_descending
mem-sort_descending y (z ∷ zs) (inl e) = mem-insert_descending y z (sort_descending zs) (inl e)
mem-sort_descending y (z ∷ zs) (inr m) =
    mem-insert_descending y z (sort_descending zs) (inr (mem-sort_descending y zs m))
mem-sort_descending y [] h = absurd h

pub All-of_mem : (P : ℤ → Type 0) (zs : List ℤ) → ((z : ℤ) → z ∈ zs → P z) → All P zs
All-of_mem P [] h = tt
All-of_mem P (z ∷ zs) h = (h z (inl refl), All-of_mem P zs (λ y m. h y (inr m)))

-- Each size is at least as large as every later one.
abbrev IsDescending : List ℤ → Type 0
IsDescending [] = Unit
IsDescending (x ∷ xs) = All (λ y. y ≤ℤ x) xs × IsDescending xs

insert_descending-IsDescending :
    (z : ℤ) (zs : List ℤ) → IsDescending zs → IsDescending (insert_descending z zs)
unfolding insert_descending
insert_descending-IsDescending z [] h = (tt, tt)
insert_descending-IsDescending z (x ∷ zs) h = elim (Bool-cases (leb_ℤ x z)) [
  | inl e ↦
      let top : x ≤ℤ z = ground arith in
      rw e (
        (
          top,
          All-of_mem _ zs
              (λ y m. let below : y ≤ℤ x = All-lookup (λ w. w ≤ℤ x) y zs h.0 m in omega arith),
        ),
        h,
      )
  | inr e ↦
      let top : z ≤ℤ x = ground arith in
      rw e (
        All-of_mem (λ y. y ≤ℤ x) (insert_descending z zs)
            (λ y m. elim (insert_descending-mem y z zs m) [
              | inl same ↦ rw same top
              | inr old ↦ All-lookup (λ w. w ≤ℤ x) y zs h.0 old
            ]),
        insert_descending-IsDescending z zs h.1,
      )
]

sort_descending-IsDescending : (zs : List ℤ) → IsDescending (sort_descending zs)
unfolding sort_descending
sort_descending-IsDescending [] = tt
sort_descending-IsDescending (z ∷ zs) =
    insert_descending-IsDescending z (sort_descending zs) (sort_descending-IsDescending zs)

last_size_lem :
    (x : ℤ) (zs : List ℤ)
    → IsDescending (x ∷ zs)
    → (z : ℤ) × (last_size (x ∷ zs) ≡ returns z) × (z ∈ x ∷ zs) × All (λ y. z ≤ℤ y) (x ∷ zs)
unfolding last_size
last_size_lem x [] h = (x, refl, inl refl, (omega arith, tt))
last_size_lem x (y ∷ zs) h =
    let (z, last, on_offer, least) = last_size_lem y zs h.1 in
    let below : z ≤ℤ x = All-lookup (λ w. w ≤ℤ x) z (y ∷ zs) h.0 on_offer in
    (z, last, inr on_offer, (below, least))

nonneg_least :
    (n : ℕ) (ys : List ℤ)
    → All IsPositive ys
    → All (λ y. pos n ≤ℤ y) ys
    → All (λ y. n ≤ pos_part y) ys
nonneg_least n [] p h = tt
nonneg_least n (pos k ∷ ys) p h = (omega arith, nonneg_least n ys p.1 h.1)
nonneg_least n (negsuc k ∷ ys) p h = absurd p.0

descending-IsMenu :
    (zs : List ℤ)
    → zs ≢ []
    → IsDescending zs
    → All IsPositive zs
    → (n : ℕ) × (last_size zs ≡ returns (pos n)) × IsMenu zs n
descending-IsMenu [] h d p = absurd (h refl)
descending-IsMenu (x ∷ zs) h d p = go (last_size_lem x zs d)
  where
    go :
        (z : ℤ) × (last_size (x ∷ zs) ≡ returns z) × (z ∈ x ∷ zs) × All (λ y. z ≤ℤ y) (x ∷ zs)
        → (n : ℕ) × (last_size (x ∷ zs) ≡ returns (pos n)) × IsMenu (x ∷ zs) n
    go (pos n, last, on_offer, least) = (
      n,
      last,
      record {
        last = last;
        on_offer = on_offer;
        positive = p;
        least = nonneg_least n (x ∷ zs) p least;
      },
    )
    go (negsuc n, last, on_offer, least) =
        absurd (All-lookup IsPositive (negsuc n) (x ∷ zs) p on_offer)

-- A list of positive sizes that is not empty is sorted into one with its smallest size last.
pub sort_descending-IsMenu :
    (zs : List ℤ)
    → zs ≢ []
    → All IsPositive zs
    → (n : ℕ) × (last_size (sort_descending zs) ≡ returns (pos n)) × IsMenu (sort_descending zs) n
sort_descending-IsMenu [] h p = absurd (h refl)
sort_descending-IsMenu (z ∷ zs) h p =
    descending-IsMenu (sort_descending (z ∷ zs)) not_empty (sort_descending-IsDescending (z ∷ zs)) (
      All-of_mem IsPositive (sort_descending (z ∷ zs))
        (λ y m. All-lookup IsPositive y (z ∷ zs) p (sort_descending-mem y (z ∷ zs) m)))
  where
    not_empty : sort_descending (z ∷ zs) ≢ []
    not_empty e = subst (λ l. z ∈ l) e (mem-sort_descending z (z ∷ zs) (inl refl))

-- Sums of the order and of any two sizes stay in the range of `int`.
abbrev pub HasSmallSums : ℕ → List ℤ → Type 0
HasSmallSums items sizes = All (λ z. items + pos_part z + pos_part z ≤ max_int) sizes

pub HasSmallSums-InRange :
    (items smallest : ℕ) (zs : List ℤ)
    → All (λ z. smallest ≤ pos_part z) zs
    → HasSmallSums items zs
    → InRange items smallest zs
HasSmallSums-InRange items smallest [] h s = tt
HasSmallSums-InRange items smallest (z ∷ zs) h s =
    (omega arith, HasSmallSums-InRange items smallest zs h.1 s.1)

IsSelection-transfer :
    (a b : List ℤ) → ((z : ℤ) → z ∈ a → z ∈ b) → (l : List ℕ) → IsSelection a l → IsSelection b l
IsSelection-transfer a b h [] s = tt
IsSelection-transfer a b h (n ∷ l) s = (h (pos n) s.0, IsSelection-transfer a b h l s.1)

lines_transfer :
    (a b : List ℤ)
    → ((z : ℤ) → z ∈ a → z ∈ b)
    → (ps : List Pack) → All (IsLine a) ps
    → All (IsLine b) ps
lines_transfer a b h [] s = tt
lines_transfer a b h (p ∷ ps) s = ((h p.size s.0.0, s.0.1), lines_transfer a b h ps s.1)

-- The order of the sizes on offer does not matter.
pub IsBest-transfer :
    (a b : List ℤ) (target : ℕ) (r : PackResult)
    → ((z : ℤ) → z ∈ a → z ∈ b)
    → ((z : ℤ) → z ∈ b → z ∈ a)
    → IsBest a target r
    → IsBest b target r
IsBest-transfer a b target r there back best = record {
  ordered = best.ordered;
  total = best.total;
  enough = best.enough;
  lines = lines_transfer a b there r.packs best.lines;
  fewest_items = λ l sel. best.fewest_items l (IsSelection-transfer b a back l sel);
  fewest_packs = λ l sel. best.fewest_packs l (IsSelection-transfer b a back l sel);
}
