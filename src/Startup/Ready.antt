-- ===== src/Startup/Ready.antt =====
-- What `InitializeServices` makes of the configuration that `Load` reads.
use pack_service.Base.{
  ℕ, ◌<◌, ◌≡◌, refl, sym, ◌∙◌, inl, inr, subst, false, List, [], ◌∷◌, ◌++◌, Option, none, ◌>>=◌,
  arith, Bool-cases,
}
use pack_service.Base.{All, Returns, Returns->>=}
use pack_service.Base.Int.{ℤ, pos, negsuc, ltb_ℤ}
use pack_service.Packs.Selection.{IsPositive, IsBest}
use pack_service.Packs.Table.{DpState}
use pack_service.Packs.Calculator.{
  Cache, default_pack_sizes, sort_descending, apply_setting, apply_settings, calculate, new_service,
}
use pack_service.Packs.Pool.{IsUsableState}
use pack_service.Packs.Sorting.{HasSmallSums}
use pack_service.Packs.Service.{
  CacheLaws, IsAnswer, IsReady, IsSetting, calculate-IsBest, new_service-IsReady,
}
use pack_service.Startup.{
  Environment, CacheConfig, load, parse_int_slice, size_settings, cache_settings,
  initialize_services, sizes_or_default,
}
use pack_service.Startup.Sizes.{parse_int_slice-IsPositive}
use pack_service.Text.{Text}

-- The sizes that a calculator with these configured sizes has.
abbrev pub start_sizes : List ℤ → List ℤ
start_sizes zs = sort_descending (sizes_or_default zs)

-- A cache that is made with a positive size is sound.
abbrev pub IsMaker : {C : Type 0} → (C → Type 0) → (ℤ → ℤ → C) → Type 0
IsMaker IsKept new_cache = (n : ℕ) (ttl : ℤ) → 0 < n → IsKept (new_cache (pos n) ttl)

module _ {C : Type 0} (new_cache : ℤ → ℤ → C) where
  start : List ℤ × Option C → List ℤ → ℤ → ℤ → List ℤ × Option C
  start s sizes size ttl =
      apply_settings s (size_settings new_cache sizes ++ cache_settings new_cache size ttl)

  cache_settings-sizes :
      (s : List ℤ × Option C) (size ttl : ℤ)
      → (apply_settings s (cache_settings new_cache size ttl)).0 ≡ s.0
  unfolding apply_settings apply_setting
  cache_settings-sizes (sizes, cache) size ttl = elim (Bool-cases (ltb_ℤ (pos 0) size)) [
    | inl above ↦ rw above refl
    | inr below ↦ rw below refl
  ]

  settings-sizes :
      (zs : List ℤ) (size ttl : ℤ)
      → (apply_settings
          (default_pack_sizes, none)
          (size_settings new_cache zs ++ cache_settings new_cache size ttl)).0
        ≡ start_sizes zs
  unfolding apply_settings apply_setting
  settings-sizes [] size ttl =
      cache_settings-sizes (default_pack_sizes, none) size ttl ∙ unfold sort_descending in refl
  settings-sizes (z ∷ zs) size ttl = cache_settings-sizes (sort_descending (z ∷ zs), none) size ttl

  module _ (IsKept : C → Type 0) (sound : IsMaker IsKept new_cache) where
    cache_settings-IsSetting :
        (size ttl : ℤ) → All (IsSetting IsKept) (cache_settings new_cache size ttl)
    cache_settings-IsSetting (negsuc n) ttl =
        let below : ltb_ℤ (pos 0) (negsuc n) ≡ false = ground arith in rw below tt
    cache_settings-IsSetting (pos n) ttl = elim (Bool-cases (ltb_ℤ (pos 0) (pos n))) [
      | inl above ↦ rw above (sound n ttl (ground arith), tt)
      | inr below ↦ rw below tt
    ]

    settings-IsSetting :
        (zs : List ℤ) (size ttl : ℤ)
        → All IsPositive zs
        → All (IsSetting IsKept) (size_settings new_cache zs ++ cache_settings new_cache size ttl)
    settings-IsSetting [] size ttl h = cache_settings-IsSetting size ttl
    settings-IsSetting (z ∷ zs) size ttl h = (h, cache_settings-IsSetting size ttl)

    initialize_services-IsReady :
        (cfg : CacheConfig) (pool : DpState)
        → All IsPositive cfg.pack_sizes
        → IsUsableState pool
        → Returns
            (λ s. IsReady IsKept s × (s.pack_sizes ≡ start_sizes cfg.pack_sizes))
            (initialize_services new_cache cfg pool)
    unfolding initialize_services
    initialize_services-IsReady cfg pool positive usable =
        let settings =
          size_settings new_cache cfg.pack_sizes ++ cache_settings new_cache cfg.size cfg.ttl in
        subst
          (λ zs. Returns (λ s. IsReady IsKept s × (s.pack_sizes ≡ zs)) (new_service settings pool))
          (settings-sizes cfg.pack_sizes cfg.size cfg.ttl)
          (new_service-IsReady IsKept settings pool
            (settings-IsSetting cfg.pack_sizes cfg.size cfg.ttl positive) usable)

-- Whatever the environment says and however durations are parsed: with a constructor of caches that
-- are sound if their size is positive, a cache that obeys `CacheLaws` and a pool state whose arrays
-- have their first cells in range, start-up makes a calculator, and its `Calculate` returns, for an
-- order of at least one item whose sum with twice a size is an `int`, the best choice of the
-- packs of PACK_SIZES, or of the default packs if it names no size; the calculator is ready again,
-- with the same sizes.
pub initialize_services-IsBest :
    {C : Type 0} (ops : Cache C) (IsKept : C → Type 0) (new_cache : ℤ → ℤ → C)
    (parse_duration : Text → Option ℤ) (env : Environment) (pool : DpState) (items : ℕ)
    (zs : List ℤ)
    → zs ≡ start_sizes (parse_int_slice (env "PACK_SIZES"))
    → IsMaker IsKept new_cache
    → CacheLaws ops (IsAnswer zs) IsKept
    → IsUsableState pool
    → 0 < items
    → HasSmallSums items zs
    → Returns
        (λ r. IsBest zs items r.1 × IsReady IsKept r.0 × (r.0.pack_sizes ≡ zs))
        (initialize_services new_cache (load parse_duration env).cache pool >>= λ s.
          calculate ops s (pos items))
unfolding load
initialize_services-IsBest ops IsKept new_cache parse_duration env pool items zs chosen sound laws
      usable items_pos small =
    Returns->>=
      (initialize_services-IsReady new_cache IsKept sound (load parse_duration env).cache pool
        (parse_int_slice-IsPositive (env "PACK_SIZES")) usable)
      λ s p. calculate-IsBest ops IsKept zs laws s items p.0 (p.1 ∙ sym chosen) items_pos small
