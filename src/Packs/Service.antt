-- ===== src/Packs/Service.antt =====
-- The operations of `PackCalculatorService`, with a cache that is behind its interface.
use mathlib.Core.Option
use pack_service.Base.{
  ℕ, ◌+◌, ◌≤◌, ◌<◌, ◌≡◌, ◌≢◌, refl, subst, List, [], ◌∷◌, Option, none, some, arith, false,
  Option-cases, inl, inr,
}
use pack_service.Base.{All, returns, Returns, returned, Returns->>=}
use pack_service.Base.Int.{ℤ, pos, pos_part, leb_ℤ}
use pack_service.Base.Machine.{max_int}
use pack_service.Packs.{PackResult}
use pack_service.Packs.Selection.{IsPositive, IsBest}
use pack_service.Packs.Table.{DpState}
use pack_service.Packs.Calculator.{
  sort_descending, last_size, default_pack_sizes, calculate_core, Cache, Service, Setting,
  with_pack_sizes, with_cache, with_cache_interface, apply_setting, apply_settings, new_service,
  compute, cached, calculate, calculate_with_pack_sizes, invalidate_cache,
}
use pack_service.Packs.Pool.{IsUsableState}
use pack_service.Packs.Fill.{All-lookup}
use pack_service.Packs.Optimal.{IsMenu, InRange, calculate_core-IsBest}
use pack_service.Packs.Sorting.{
  sort_descending-mem, mem-sort_descending, All-of_mem, sort_descending-IsMenu, HasSmallSums,
  HasSmallSums-InRange, IsBest-transfer,
}

-- What the calculator relies on in a cache: it returns nothing but what was stored. `Good` says
-- which results may be stored for a key, and `IsKept` that the cache holds no others.
pub record CacheLaws {C : Type 0} (ops : Cache C) (Good : ℤ → PackResult → Type 0)
    (IsKept : C → Type 0) : Type 0 where
  pub get_keeps : (c : C) (k : ℤ) → IsKept c → IsKept (ops.get c k).0
  pub get_good : (c : C) (k : ℤ) (r : PackResult) → IsKept c → (ops.get c k).1 ≡ some r → Good k r
  pub set_keeps : (c : C) (k : ℤ) (r : PackResult) → IsKept c → Good k r → IsKept (ops.set c k r)
  pub clear_keeps : (c : C) → IsKept c → IsKept (ops.clear c)

-- The results that a calculator with these sizes may store.
abbrev pub IsAnswer : List ℤ → ℤ → PackResult → Type 0
IsAnswer sizes items r = IsBest sizes (pos_part items) r

abbrev pub WhereSome : {C : Type 0} → (C → Type 0) → Option C → Type 0
WhereSome P none = Unit
WhereSome P (some c) = P c

positive_test : (n : ℕ) → 0 < n → leb_ℤ (pos n) (pos 0) ≡ false
positive_test n h = ground arith

module _ {C : Type 0} (ops : Cache C) where
  -- `CalculateWithPackSizes`, for an order of at least one item and custom sizes that are not
  -- empty, not sorted perhaps, all positive, and so small that the sum of the order and of twice a
  -- size is an `int`, with a pool state whose arrays have their first cells in range: it returns,
  -- with the best choice of the custom packs; cache and configured sizes stay as they are, and the
  -- state in the pool is usable again.
  pub calculate_with_pack_sizes-IsBest :
      (s : Service C) (items : ℕ) (sizes : List ℤ)
      → IsUsableState s.pool
      → 0 < items
      → sizes ≢ []
      → All IsPositive sizes
      → HasSmallSums items sizes
      → Returns
          (λ r.
            IsBest sizes items r.1
            × IsUsableState r.0.pool
            × (r.0.cache ≡ s.cache)
            × (r.0.pack_sizes ≡ s.pack_sizes)
            × (r.0.smallest_pack ≡ s.smallest_pack))
          (calculate_with_pack_sizes ops s (pos items) sizes)
  unfolding calculate_with_pack_sizes
  calculate_with_pack_sizes-IsBest s items [] usable items_pos nonempty positive small =
      absurd (nonempty refl)
  calculate_with_pack_sizes-IsBest s items (z ∷ zs) usable items_pos nonempty positive small =
      let (n, last, menu) = sort_descending-IsMenu (z ∷ zs) nonempty positive in
      let range : InRange items n (sort_descending (z ∷ zs)) =
        HasSmallSums-InRange items n (sort_descending (z ∷ zs)) menu.least (
          All-of_mem (λ y. items + pos_part y + pos_part y ≤ max_int) (sort_descending (z ∷ zs))
            (λ y m.
              All-lookup (λ y. items + pos_part y + pos_part y ≤ max_int) y (z ∷ zs) small
                (sort_descending-mem y (z ∷ zs) m))) in
      rw (positive_test items items_pos, last)
        (Returns->>=
          (calculate_core-IsBest s.pool items n (sort_descending (z ∷ zs)) usable items_pos menu
            range)
          λ r p. returned (
            IsBest-transfer (sort_descending (z ∷ zs)) (z ∷ zs) items r.1
                (λ y. sort_descending-mem y (z ∷ zs)) (λ y. mem-sort_descending y (z ∷ zs)) p.1,
            p.0,
            refl,
            refl,
            refl,
          ))

-- A calculator that can serve an order of `items`.
module _ {C : Type 0} (IsKept : C → Type 0) where
  pub record IsReady (s : Service C) : Type 0 where
    pub smallest : ℕ
    pub smallest_last : s.smallest_pack ≡ pos smallest
    pub menu : IsMenu s.pack_sizes smallest
    pub usable : IsUsableState s.pool
    pub kept : WhereSome IsKept s.cache

module _ {C : Type 0} (ops : Cache C) (IsKept : C → Type 0) where
  module _ (sizes : List ℤ) (laws : CacheLaws ops (IsAnswer sizes) IsKept) where
    -- The service after a call: ready again, with the same sizes.
    abbrev IsServed : ℕ → Service C × PackResult → Type 0
    IsServed items r = IsBest sizes items r.1 × IsReady IsKept r.0 × (r.0.pack_sizes ≡ sizes)

    compute-IsServed :
        (s : Service C) (items : ℕ)
        → IsReady IsKept s
        → s.pack_sizes ≡ sizes
        → 0 < items
        → HasSmallSums items sizes
        → Returns (IsServed items) (compute ops s items)
    unfolding compute
    compute-IsServed s items ready same items_pos small =
        let menu : IsMenu sizes ready.smallest =
          subst (λ zs. IsMenu zs ready.smallest) same ready.menu in
        let core : Returns (λ r. IsUsableState r.0 × IsBest sizes items r.1)
            (calculate_core s.pool items s.pack_sizes s.smallest_pack) =
          rw (same, ready.smallest_last)
            (calculate_core-IsBest s.pool items ready.smallest sizes ready.usable items_pos menu
              (HasSmallSums-InRange items ready.smallest sizes menu.least small)) in
        Returns->>= core λ r p. returned (
          p.1,
          record {
            smallest = ready.smallest;
            smallest_last = ready.smallest_last;
            menu = ready.menu;
            usable = p.0;
            kept = stored s.cache r.1 ready.kept p.1;
          },
          same,
        )
      where
        stored :
            (o : Option C) (r : PackResult)
            → WhereSome IsKept o
            → IsBest sizes items r
            → WhereSome IsKept (Option.map (λ c. ops.set c (pos items) r) o)
        stored none r h best = tt
        stored (some c) r h best = laws.set_keeps c (pos items) r h best

    -- `Calculate`, for a service that is ready, with a cache that obeys `CacheLaws`, and an order
    -- of at least one item whose sum with twice a configured size is an `int`: it returns, from the
    -- cache or not, the best choice of the configured packs, and the service is ready again, with
    -- the same sizes.
    pub calculate-IsBest :
        (s : Service C) (items : ℕ)
        → IsReady IsKept s
        → s.pack_sizes ≡ sizes
        → 0 < items
        → HasSmallSums items sizes
        → Returns (IsServed items) (calculate ops s (pos items))
    unfolding calculate
    calculate-IsBest s items ready same items_pos small =
        rw (positive_test items items_pos) (by_cache s.cache refl)
      where
        by_cache : (o : Option C) → s.cache ≡ o → Returns (IsServed items) (cached ops s o items)
        by_cache none e = compute-IsServed s items ready same items_pos small
        by_cache (some c) e =
            let kept : IsKept c = subst (WhereSome IsKept) e ready.kept in
            let after : Service C = record s { cache = some (ops.get c (pos items)).0 } in
            let ready' : IsReady IsKept after = record {
              smallest = ready.smallest;
              smallest_last = ready.smallest_last;
              menu = ready.menu;
              usable = ready.usable;
              kept = laws.get_keeps c (pos items) kept;
            } in
            elim (Option-cases (ops.get c (pos items)).1) [
              | inl miss ↦
                  rw (miss, cached) (compute-IsServed after items ready' same items_pos small)
              | inr (r, hit) ↦
                  rw (hit, cached) (returned (laws.get_good c (pos items) r kept hit, ready', same))
            ]

    -- `InvalidateCache` keeps a service ready, if its cache obeys `CacheLaws`.
    pub invalidate_cache-IsReady :
        (s : Service C) → IsReady IsKept s → IsReady IsKept (invalidate_cache ops s)
    unfolding invalidate_cache
    invalidate_cache-IsReady s ready = record {
      smallest = ready.smallest;
      smallest_last = ready.smallest_last;
      menu = ready.menu;
      usable = ready.usable;
      kept = cleared s.cache ready.kept;
    }
      where
        cleared : (o : Option C) → WhereSome IsKept o → WhereSome IsKept (Option.map ops.clear o)
        cleared none h = tt
        cleared (some c) h = laws.clear_keeps c h

default_IsMenu : IsMenu default_pack_sizes 250
unfolding last_size
default_IsMenu = record {
  last = refl;
  on_offer = inr (inr (inr (inr (inl refl))));
  positive = omega arith;
  least = omega arith;
}

module _ {C : Type 0} (IsKept : C → Type 0) where
  -- Settings whose sizes are positive and whose cache is sound.
  abbrev pub IsSetting : Setting C → Type 0
  IsSetting (with_pack_sizes sizes) = All IsPositive sizes
  IsSetting (with_cache c) = WhereSome IsKept c
  IsSetting (with_cache_interface c) = WhereSome IsKept c

  abbrev IsSetUp : List ℤ × Option C → Type 0
  IsSetUp (sizes, cache) =
      ((n : ℕ) × (last_size sizes ≡ returns (pos n)) × IsMenu sizes n) × WhereSome IsKept cache

  apply_setting-IsSetUp :
      (x : Setting C) (s : List ℤ × Option C)
      → IsSetting x
      → IsSetUp s
      → IsSetUp (apply_setting s x)
  unfolding apply_setting
  apply_setting-IsSetUp (with_pack_sizes []) (sizes, cache) h s = s
  apply_setting-IsSetUp (with_pack_sizes (z ∷ zs)) (sizes, cache) h s =
      (sort_descending-IsMenu (z ∷ zs) (λ e. cc) h, s.1)
  apply_setting-IsSetUp (with_cache none) (sizes, cache) h s = s
  apply_setting-IsSetUp (with_cache (some c)) (sizes, cache) h s = (s.0, h)
  apply_setting-IsSetUp (with_cache_interface c) (sizes, cache) h s = (s.0, h)

  apply_settings-IsSetUp :
      (xs : List (Setting C)) (s : List ℤ × Option C)
      → All IsSetting xs
      → IsSetUp s
      → IsSetUp (apply_settings s xs)
  unfolding apply_settings
  apply_settings-IsSetUp [] s h set = set
  apply_settings-IsSetUp (x ∷ xs) s h set =
      apply_settings-IsSetUp xs (apply_setting s x) h.1 (apply_setting-IsSetUp x s h.0 set)

  -- `NewPackCalculatorService` returns a service that is ready, with the sizes that its options
  -- leave.
  pub new_service-IsReady :
      (settings : List (Setting C)) (pool : DpState)
      → All IsSetting settings
      → IsUsableState pool
      → Returns
          (λ s.
            IsReady IsKept s
            × (s.pack_sizes ≡ (apply_settings (default_pack_sizes, none) settings).0))
          (new_service settings pool)
  unfolding new_service
  new_service-IsReady settings pool h usable =
      let start : IsSetUp (default_pack_sizes, none) =
        ((250, default_IsMenu.last, default_IsMenu), tt) in
      let set = apply_settings-IsSetUp settings (default_pack_sizes, none) h start in
      let (n, last, menu) = set.0 in
      rw last (
        returned (
          record { smallest = n; smallest_last = refl; menu = menu; usable = usable; kept = set.1 },
          refl,
        ))
