-- ===== src/Packs/Counting.antt =====
-- `buildResultWithSizes`: the packs that the backtracking loop counts add up to the number of
-- items, and are as many as the cell says.
use pack_service.Base.{
  ℕ, zero, suc, ◌+◌, ◌-◌, ◌*◌, ◌≤◌, ◌<◌, ◌≡◌, refl, sym, ◌∙◌, ◌⊎◌, inl, inr, List, [], ◌∷◌, some,
  arith, ltb, if◌then◌else◌, Bool-cases,
}
use pack_service.Base.{
  length, get_elem?, set, replicate, length-set, length-replicate, get_elem?-get_or, ◌∈◌, All,
}
use pack_service.Base.{Returns, returned, Returns->>=, Returns-weaken}
use pack_service.Base.Int.{ℤ, pos, negsuc, pos_part, eq_ℤ, eq_ℤ_iff, ltb_ℤ-pos}
use pack_service.Base.Machine.{max_int, sub_int-pos}
use pack_service.Packs.{PackResult}
use pack_service.Packs.Selection.{IsLine, item_count, pack_count, sum}
use pack_service.Packs.Table.{Table}
use pack_service.Packs.Breakdown.{
  SizeIndex, find_index, put_index, index_sizes, count_pack, backtrack, collect, build_result,
}
use pack_service.Packs.Relax.{cell, IsTraced}

find_index-put_index :
    (size z : ℤ) (i : ℕ) (m : SizeIndex)
    → find_index z (put_index size i m) ≡ (if eq_ℤ size z then some i else find_index z m)
unfolding find_index put_index
find_index-put_index size z i [] = refl
find_index-put_index size z i ((key, idx) ∷ m) =
    ground
      (arith, eq_ℤ_iff key size, eq_ℤ_iff size z, eq_ℤ_iff key z, find_index-put_index size z i m)

module _ (sizes : List ℤ) where
  -- Every entry of the map is a position of its size.
  abbrev IsSound : SizeIndex → Type 0
  IsSound m = (z : ℤ) (j : ℕ) → find_index z m ≡ some j → get_elem? sizes j ≡ some z

  put_index-IsSound :
      (size : ℤ) (i : ℕ) (m : SizeIndex)
      → get_elem? sizes i ≡ some size
      → IsSound m
      → IsSound (put_index size i m)
  put_index-IsSound size i m here sound z j e = elim (Bool-cases (eq_ℤ size z)) [
    | inl same ↦ ground (arith, find_index-put_index size z i m, eq_ℤ_iff size z)
    | inr other ↦ sound z j (sym (find_index-put_index size z i m ∙ rw other) ∙ e)
  ]

  index_sizes-IsSound :
      (i : ℕ) (rest : List ℤ) (m : SizeIndex)
      → ((k : ℕ) → get_elem? sizes (k + i) ≡ get_elem? rest k)
      → IsSound m
      → IsSound (index_sizes i rest m)
  unfolding index_sizes
  index_sizes-IsSound i [] m at sound = sound
  index_sizes-IsSound i (size ∷ rest) m at sound =
      index_sizes-IsSound (suc i) rest (put_index size i m)
        (λ k. let e : k + suc i ≡ suc k + i = omega arith in rw e (at (suc k)))
        (put_index-IsSound size i m (let e : 0 + i ≡ i = omega arith in rw e at (at 0)) sound)

  abbrev IsIndexed : ℤ → SizeIndex → Type 0
  IsIndexed z m = (j : ℕ) × (find_index z m ≡ some j)

  index_sizes-IsIndexed :
      (z : ℤ) (i : ℕ) (rest : List ℤ) (m : SizeIndex)
      → (z ∈ rest) ⊎ IsIndexed z m
      → IsIndexed z (index_sizes i rest m)
  unfolding index_sizes
  index_sizes-IsIndexed z i [] m (inl h) = absurd h
  index_sizes-IsIndexed z i [] m (inr h) = h
  index_sizes-IsIndexed z i (size ∷ rest) m h =
      index_sizes-IsIndexed z (suc i) rest (put_index size i m) (next h)
    where
      next : (z ∈ size ∷ rest) ⊎ IsIndexed z m → (z ∈ rest) ⊎ IsIndexed z (put_index size i m)
      next (inl (inr below)) = inl below
      next (inl (inl here)) =
          inr (i, find_index-put_index size z i m ∙ rw ((eq_ℤ_iff size z).1 (sym here)))
      next (inr (j, e)) = elim (Bool-cases (eq_ℤ size z)) [
        | inl same ↦ inr (i, find_index-put_index size z i m ∙ rw same)
        | inr other ↦ inr (j, find_index-put_index size z i m ∙ rw other e)
      ]

-- What the counts weigh: the items in as many packs of each size.
unfoldable pub weight : List ℤ → List ℕ → ℕ
weight (z ∷ zs) (c ∷ cs) = pos_part z * c + weight zs cs
weight _ _ = 0

increment_lem :
    (zs : List ℤ) (counts : List ℕ) (j : ℕ) (z : ℤ)
    → length counts ≡ length zs
    → get_elem? zs j ≡ some z
    → (c : ℕ) × (get_elem? counts j ≡ some c)
      × (weight zs (set counts j (c + 1)) ≡ weight zs counts + pos_part z)
      × (sum (set counts j (c + 1)) ≡ sum counts + 1)
unfolding weight sum
increment_lem (y ∷ zs) (c ∷ counts) zero z len e =
    let same : pos_part y ≡ pos_part z = ground arith in
    (c, refl, rw same (grind arith), omega arith)
increment_lem (y ∷ zs) (c ∷ counts) (suc j) z len e =
    let (b, here, w, s) = increment_lem zs counts j z (omega arith) e in
    (b, here, omega arith, omega arith)
increment_lem [] counts j z len e = absurd (ground arith)
increment_lem (y ∷ zs) [] j z len e = absurd (omega arith)

module _ (sizes : List ℤ) (index : SizeIndex) (sound : IsSound sizes index)
    (complete : (z : ℤ) → z ∈ sizes → IsIndexed sizes z index) where
  -- The counts `r` stand for `j` more items and `d` more packs than `counts`.
  pub record Adds (counts : List ℕ) (j d : ℕ) (r : List ℕ) : Type 0 where
    pub lengths : length r ≡ length sizes
    pub items : weight sizes r ≡ weight sizes counts + j
    pub packs : sum r ≡ sum counts + d

  count_pack-Adds :
      (n : ℕ) (counts : List ℕ)
      → pos n ∈ sizes
      → length counts ≡ length sizes
      → Returns (Adds counts n 1) (count_pack index (pos n) counts)
  unfolding count_pack
  count_pack-Adds n counts m len =
      let (idx, found) = complete (pos n) m in
      let (c, here, w, s) = increment_lem sizes counts idx (pos n) len (sound (pos n) idx found) in
      rw (found, count_pack, here)
        (returned (record { lengths = length-set counts idx (c + 1) ∙ len; items = w; packs = s }))

  at_zero :
      (bound : ℕ) (t : Table)
      → IsTraced sizes bound t
      → (d : ℕ) (counts : List ℕ) → cell t 0 ≡ some d
      → length counts ≡ length sizes
      → Adds counts 0 d counts
  at_zero bound t traced d counts full len = elim (traced 0 d full) [
    | inl (_, e) ↦ record { lengths = len; items = omega arith; packs = omega arith }
    | inr l ↦ absurd (omega (arith, l.fits, l.positive))
  ]

  -- The backtracking loop ends within its fuel, at index 0.
  backtrack-Adds :
      (bound : ℕ) (t : Table)
      → IsTraced sizes bound t
      → (fuel j d : ℕ) (counts : List ℕ) → j ≤ fuel
      → j < length t.parent
      → j ≤ max_int
      → cell t j ≡ some d
      → length counts ≡ length sizes
      → Returns (Adds counts j d) (backtrack fuel index t.parent (pos j) counts)
  unfolding backtrack
  backtrack-Adds bound t traced zero zero d counts le inside small full len =
      returned (at_zero bound t traced d counts full len)
  backtrack-Adds bound t traced zero (suc j) d counts le inside small full len =
      absurd (omega arith)
  backtrack-Adds bound t traced (suc fuel) zero d counts le inside small full len =
      returned (at_zero bound t traced d counts full len)
  backtrack-Adds bound t traced (suc fuel) (suc j) d counts le inside small full len =
      elim (traced (suc j) d full) [
        | inl (e, _) ↦ absurd (omega arith)
        | inr l ↦
            rw
              (
                ltb_ℤ-pos 0 (suc j) (omega arith),
                backtrack,
                get_elem?-get_or t.parent (suc j) (negsuc 0) inside,
                l.parent,
              )
              (Returns->>= (count_pack-Adds l.size counts l.offered len) λ r p.
                rw (sub_int-pos (suc j) l.size small l.fits) (
                  Returns-weaken
                    (backtrack-Adds bound t traced fuel (suc j - l.size) l.before r
                      (omega (arith, l.positive)) (omega arith) (omega arith) l.source p.lengths)
                    λ v q. record {
                      lengths = q.lengths;
                      items = omega (arith, q.items, p.items, l.fits);
                      packs = omega (arith, q.packs, p.packs, l.count);
                    }))
      ]

module _ (all : List ℤ) where
  collect_lem :
      (sizes : List ℤ) (counts : List ℕ)
      → length counts ≡ length sizes
      → (item_count (collect sizes counts) ≡ weight sizes counts)
        × (pack_count (collect sizes counts) ≡ sum counts)
  unfolding collect weight sum item_count pack_count
  collect_lem [] [] e = (refl, refl)
  collect_lem (z ∷ sizes) (c ∷ counts) e = ground (arith, collect_lem sizes counts)
  collect_lem (z ∷ sizes) [] e = absurd (omega arith)
  collect_lem [] (c ∷ counts) e = absurd (omega arith)

  collect-IsLine :
      (sizes : List ℤ) (counts : List ℕ)
      → ((z : ℤ) → z ∈ sizes → z ∈ all)
      → All (IsLine all) (collect sizes counts)
  unfolding collect
  collect-IsLine (z ∷ sizes) (c ∷ counts) sub = elim (Bool-cases (ltb 0 c)) [
    | inl some_packs ↦
        rw some_packs
          ((sub z (inl refl), ground arith), collect-IsLine sizes counts (λ y m. sub y (inr m)))
    | inr no_packs ↦ rw no_packs (collect-IsLine sizes counts (λ y m. sub y (inr m)))
  ]
  collect-IsLine [] counts sub = tt
  collect-IsLine (z ∷ sizes) [] sub = tt

-- The result for `m` items, from a traced table whose cell `m` holds `d` packs.
pub record IsBuilt (sizes : List ℤ) (target m d : ℕ) (r : PackResult) : Type 0 where
  pub ordered : r.ordered_items ≡ pos target
  pub total : r.total_items ≡ pos m
  pub items : item_count r.packs ≡ m
  pub packs : pack_count r.packs ≡ d
  pub lines : All (IsLine sizes) r.packs

nothing : (z : ℤ) (j : ℕ) → find_index z [] ≡ some j → ⊥
unfolding find_index
nothing z j e = cc

weight_zeros : (sizes : List ℤ) → weight sizes (replicate (length sizes) 0) ≡ 0
unfolding weight
weight_zeros [] = refl
weight_zeros (z ∷ sizes) = omega (arith, weight_zeros sizes)

sum_zeros : (n : ℕ) → sum (replicate n 0) ≡ 0
unfolding sum
sum_zeros zero = refl
sum_zeros (suc n) = omega (arith, sum_zeros n)

pub build_result-IsBuilt :
    (sizes : List ℤ) (bound target m d : ℕ) (t : Table)
    → IsTraced sizes bound t
    → m < length t.parent
    → m ≤ max_int
    → cell t m ≡ some d
    → Returns (IsBuilt sizes target m d) (build_result target m t.parent sizes)
unfolding build_result
build_result-IsBuilt sizes bound target m d t traced inside small full =
    Returns->>=
      (backtrack-Adds sizes (index_sizes 0 sizes []) sound complete bound t traced m m d zeros
        (omega arith) inside small full (length-replicate (length sizes) 0))
      λ r p. returned (record {
        ordered = refl;
        total = refl;
        items = omega (arith, (collect_lem sizes sizes r p.lengths).0, p.items, weight_zeros sizes);
        packs =
            omega
              (arith, (collect_lem sizes sizes r p.lengths).1, p.packs, sum_zeros (length sizes));
        lines = collect-IsLine sizes sizes r (λ z h. h);
      })
  where
    zeros : List ℕ
    zeros = replicate (length sizes) 0

    sound : IsSound sizes (index_sizes 0 sizes [])
    sound =
        index_sizes-IsSound sizes 0 sizes [] (λ k. let e : k + 0 ≡ k = omega arith in rw e)
          (λ z j e. absurd (nothing z j e))

    complete : (z : ℤ) → z ∈ sizes → IsIndexed sizes z (index_sizes 0 sizes [])
    complete z h = index_sizes-IsIndexed sizes z 0 sizes [] (inl h)
