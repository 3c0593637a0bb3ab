-- ===== src/Packs/Breakdown.antt =====
-- internal/service/pack_calculator.go: the packs of a result (`smallOrderWithSizes` and
-- `buildResultWithSizes`).
use pack_service.Base.{
  ℕ, zero, suc, ◌+◌, true, false, List, [], ◌∷◌, Option, none, some, reverse, ltb, if◌then◌else◌,
  length, get_elem?, set, replicate,
}
use pack_service.Base.{Outcome, returns, panics, out_of_fuel, ◌>>=◌, or_panic}
use pack_service.Base.Int.{ℤ, pos, ltb_ℤ, leb_ℤ, eq_ℤ}
use pack_service.Base.Machine.{sub_int}
use pack_service.Packs.{Pack, PackResult}

abbrev one_pack : ℕ → ℤ → PackResult
one_pack target size = record {
  ordered_items = pos target;
  total_items = size;
  packs = record { size = size; quantity = 1 } ∷ [];
}

-- The loop of `smallOrderWithSizes`, over the sizes from the last to the first.
unfoldable pub small_order_from : ℕ → List ℤ → ℤ → PackResult
small_order_from target [] smallest = one_pack target smallest
small_order_from target (size ∷ sizes) smallest =
    if leb_ℤ (pos target) size then one_pack target size else small_order_from target sizes smallest

unfoldable pub small_order : ℕ → List ℤ → ℤ → PackResult
unfolding small_order_from
small_order target sizes smallest = small_order_from target (reverse sizes) smallest

-- `sizeToIndex`: a Go map from a size to a position, as an association list with one entry a key.
abbrev pub SizeIndex : Type 0
SizeIndex = List (ℤ × ℕ)

unfoldable pub find_index : ℤ → SizeIndex → Option ℕ
find_index size [] = none
find_index size ((key, idx) ∷ m) = if eq_ℤ key size then some idx else find_index size m

unfoldable pub put_index : ℤ → ℕ → SizeIndex → SizeIndex
put_index size i [] = (size, i) ∷ []
put_index size i ((key, idx) ∷ m) =
    if eq_ℤ key size then (size, i) ∷ m else (key, idx) ∷ put_index size i m

-- The loop that fills `sizeToIndex`, from position `i` on: of two equal sizes the last counts.
unfoldable pub index_sizes : ℕ → List ℤ → SizeIndex → SizeIndex
unfolding put_index
index_sizes i [] m = m
index_sizes i (size ∷ sizes) m = index_sizes (suc i) sizes (put_index size i m)

-- `packCounts[idx]++`
increment : List ℕ → ℕ → Outcome (List ℕ)
increment counts idx = do c ← or_panic (get_elem? counts idx); returns (set counts idx (c + 1))

-- `if idx, ok := sizeToIndex[packSize]; ok { packCounts[idx]++ }`
unfoldable pub count_pack : SizeIndex → ℤ → List ℕ → Outcome (List ℕ)
unfolding find_index increment
count_pack index size counts = elim (find_index size index) [
  | none ↦ returns counts
  | some idx ↦ increment counts idx
]

-- `parent[curr]` at an index that may be negative
abbrev parent_at : List ℤ → ℤ → Outcome ℤ
parent_at parent (pos n) = or_panic (get_elem? parent n)
parent_at parent _ = panics

-- The backtracking loop, with fuel: `curr` is positive in every round, and `curr -= packSize`.
unfoldable pub backtrack : ℕ → SizeIndex → List ℤ → ℤ → List ℕ → Outcome (List ℕ)
backtrack zero index parent curr counts = if ltb_ℤ (pos 0) curr then out_of_fuel else returns counts
backtrack (suc fuel) index parent curr counts = elim (ltb_ℤ (pos 0) curr) [
  | false ↦ returns counts
  | true ↦ do
    size ← parent_at parent curr
    counts' ← count_pack index size counts
    backtrack fuel index parent (sub_int curr size) counts'
]

-- The loop that builds the result slice: `packCounts` is as long as `packSizes`.
unfoldable pub collect : List ℤ → List ℕ → List Pack
collect (size ∷ sizes) (count ∷ counts) =
    let rest = collect sizes counts in
    if ltb 0 count then record { size = size; quantity = count } ∷ rest else rest
collect _ _ = []

-- The fuel is `minItems`: each round takes a positive size off `curr`.
unfoldable pub build_result : ℕ → ℕ → List ℤ → List ℤ → Outcome PackResult
build_result target min_items parent sizes = do
  counts ←
      backtrack min_items (index_sizes 0 sizes []) parent (pos min_items)
        (replicate (length sizes) 0)
  returns (record {
    ordered_items = pos target;
    total_items = pos min_items;
    packs = collect sizes counts;
  })
