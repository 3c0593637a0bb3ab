-- ===== src/Packs/Calculator.antt =====
-- internal/service/pack_calculator.go: `calculateCore` and the operations of
-- `PackCalculatorService`.
use mathlib.Core.Option
use pack_service.Base.{ℕ, ◌+◌, ◌-◌, List, [], ◌∷◌, Option, none, some, if◌then◌else◌}
use pack_service.Base.{Outcome, returns, panics, ◌>>=◌}
use pack_service.Base.Int.{ℤ, pos, negsuc, pos_part, leb_ℤ}
use pack_service.Base.Machine.{add_int, sub_int}
use pack_service.Packs.{PackResult, empty}
use pack_service.Packs.Table.{DpState, get_dp_state, put_dp_state, Table, fill, find_min}
use pack_service.Packs.Breakdown.{small_order, build_result}

-- The rest of `calculateCore` once the arrays are there, with `maxItems` at least 0.
unfoldable pub solve : ℕ → ℕ → List ℤ → ℤ → Table → Outcome (Table × PackResult)
solve max_items target sizes smallest start = do
  t ← fill (max_items + 1) max_items target sizes smallest 0 start
  found ← find_min (max_items + 1 - target) (add_int (pos target) smallest) t.dp target
  elim found [
    | none ↦ returns (t, empty (pos target))
    | some min_items ↦ do result ← build_result target min_items t.parent sizes; returns (t, result)
  ]

-- The pooled path of `calculateCore`, given `maxItems + 1`, the length that it asks for. A length
-- that is not positive panics in `getDPState`, at the slice bound or at `state.dp[0]`.
unfoldable pub pooled_core : DpState → ℤ → ℕ → List ℤ → ℤ → Outcome (DpState × PackResult)
pooled_core pooled (negsuc _) target sizes smallest = panics
pooled_core pooled (pos size) target sizes smallest = do
  state ← get_dp_state pooled size
  (t, result) ←
      solve (size - 1) target sizes smallest
        (record { dp = state.dp.cells; parent = state.parent.cells })
  let used : DpState = record {
    dp = record { cells = t.dp; spare = state.dp.spare };
    parent = record { cells = t.parent; spare = state.parent.spare };
  }
  returns (put_dp_state used, result)

abbrev pub max_items : ℕ → ℤ → ℤ
max_items target smallest = sub_int (add_int (pos target) smallest) (pos 1)

-- `calculateCore`, for an order of at least one item. `pooled` is what the pool hands out, and the
-- state that goes back to the pool stands beside the result.
unfoldable pub calculate_core : DpState → ℕ → List ℤ → ℤ → Outcome (DpState × PackResult)
calculate_core pooled target [] smallest = returns (pooled, empty (pos target))
calculate_core pooled target (size ∷ sizes) smallest =
    if leb_ℤ (pos target) smallest
    then returns (pooled, small_order target (size ∷ sizes) smallest)
    else pooled_core pooled (add_int (max_items target smallest) (pos 1)) target (size ∷ sizes)
        smallest

-- `sort.Sort(sort.Reverse(sort.IntSlice(sizes)))`: the sizes in descending order. The result of
-- the library's sort is the same list, since equal sizes are equal.
unfoldable pub insert_descending : ℤ → List ℤ → List ℤ
insert_descending size [] = size ∷ []
insert_descending size (x ∷ sizes) =
    if leb_ℤ x size then size ∷ x ∷ sizes else x ∷ insert_descending size sizes

unfoldable pub sort_descending : List ℤ → List ℤ
unfolding insert_descending
sort_descending [] = []
sort_descending (size ∷ sizes) = insert_descending size (sort_descending sizes)

-- `sizes[len(sizes)-1]`
unfoldable pub last_size : List ℤ → Outcome ℤ
last_size [] = panics
last_size (size ∷ []) = returns size
last_size (_ ∷ size ∷ sizes) = last_size (size ∷ sizes)

-- `DefaultPackSizes`
abbrev pub default_pack_sizes : List ℤ
default_pack_sizes = pos 5000 ∷ pos 2000 ∷ pos 1000 ∷ pos 500 ∷ pos 250 ∷ []

-- The interface `cache.Cache`. What an implementation does with a clock is part of its state.
pub record Cache (C : Type 0) : Type 0 where
  pub get : C → ℤ → C × Option PackResult
  pub set : C → ℤ → PackResult → C
  pub clear : C → C

-- A `PackCalculatorService`, and the state that the pool hands out next.
pub record Service (C : Type 0) : Type 0 where
  pub pack_sizes : List ℤ
  pub smallest_pack : ℤ
  pub cache : Option C
  pub pool : DpState

-- `Option` of the code: a change of a service under construction.
pub data Setting (C : Type 0) : Type 0 where
  with_pack_sizes : List ℤ → Setting C
  with_cache : Option C → Setting C
  with_cache_interface : Option C → Setting C

module _ {C : Type 0} where
  -- `WithPackSizes`, `WithCache` and `WithCacheInterface`. `with_cache` holds what `newTTLCache`
  -- returns, or `none` where `WithCache` is given a capacity that is not positive;
  -- `with_cache_interface` holds its argument, `none` for a nil one.
  unfoldable pub apply_setting : List ℤ × Option C → Setting C → List ℤ × Option C
  apply_setting (sizes, cache) (with_pack_sizes []) = (sizes, cache)
  apply_setting (sizes, cache) (with_pack_sizes (x ∷ xs)) = (sort_descending (x ∷ xs), cache)
  apply_setting (sizes, cache) (with_cache none) = (sizes, cache)
  apply_setting (sizes, cache) (with_cache (some c)) = (sizes, some c)
  apply_setting (sizes, cache) (with_cache_interface c) = (sizes, c)

  unfoldable pub apply_settings : List ℤ × Option C → List (Setting C) → List ℤ × Option C
  unfolding apply_setting
  apply_settings s [] = s
  apply_settings s (x ∷ xs) = apply_settings (apply_setting s x) xs

  -- `NewPackCalculatorService`
  unfoldable pub new_service : List (Setting C) → DpState → Outcome (Service C)
  unfolding apply_settings
  new_service settings pool = do
    let (sizes, cache) = apply_settings (default_pack_sizes, none) settings
    smallest ← last_size sizes
    returns (record { pack_sizes = sizes; smallest_pack = smallest; cache = cache; pool = pool })

  -- The calculation of `Calculate` after a miss, and the write to the cache.
  unfoldable pub compute : Cache C → Service C → ℕ → Outcome (Service C × PackResult)
  compute ops s items = do
    (pool, result) ← calculate_core s.pool items s.pack_sizes s.smallest_pack
    returns (
      record s { cache = Option.map (λ c. ops.set c (pos items) result) s.cache; pool = pool },
      result,
    )

  unfoldable pub cached : Cache C → Service C → Option C → ℕ → Outcome (Service C × PackResult)
  unfolding compute
  cached ops s none items = compute ops s items
  cached ops s (some c) items =
      let (c', found) = ops.get c (pos items) in
      let s' : Service C = record s { cache = some c' } in
      elim found [ some result ↦ returns (s', result) | none ↦ compute ops s' items ]

  -- `Calculate`
  unfoldable pub calculate : Cache C → Service C → ℤ → Outcome (Service C × PackResult)
  unfolding cached
  calculate ops s items =
      if leb_ℤ items (pos 0)
      then returns (s, empty items)
      else cached ops s s.cache (pos_part items)

  custom : Cache C → Service C → ℤ → List ℤ → Outcome (Service C × PackResult)
  custom ops s items [] = calculate ops s items
  custom ops s items (x ∷ xs) = do
    let sizes = sort_descending (x ∷ xs)
    smallest ← last_size sizes
    (pool, result) ← calculate_core s.pool (pos_part items) sizes smallest
    returns (record s { pool = pool }, result)

  -- `CalculateWithPackSizes`
  unfoldable pub calculate_with_pack_sizes :
      Cache C → Service C → ℤ → List ℤ → Outcome (Service C × PackResult)
  unfolding custom
  calculate_with_pack_sizes ops s items sizes =
      if leb_ℤ items (pos 0) then returns (s, empty items) else custom ops s items sizes

  -- `InvalidateCache`: every `cache.Cache` has a `Clear`.
  unfoldable pub invalidate_cache : Cache C → Service C → Service C
  invalidate_cache ops s = record s { cache = Option.map ops.clear s.cache }
