-- ===== src/PackSizes/Degraded.antt =====
-- What the endpoint that calculates packs answers while the circuit breaker is open.
use pack_service.Base.{
  ℕ, ◌+◌, ◌<◌, ◌≡◌, refl, sym, ap, subst, false, List, [], none, some, arith, Returns,
}
use pack_service.Base.Int.{ℤ, pos}
use pack_service.Breaker.{Config, open_state, admit}
use pack_service.Handler.{
  Handler, nothing, Times, get_sizes, get_active, get_pack_sizes, calculate_packs,
}
use pack_service.Handler.Answers.{or_else, offered, IsAnswered, calculate_packs-offered}
use pack_service.Packs.Calculator.{Cache}
use pack_service.Packs.Service.{CacheLaws, IsAnswer, IsReady}
use pack_service.Packs.Sorting.{HasSmallSums}
use pack_service.PackSizes.{
  answered, Collection, Reads, plain_repository, Guarded, guarded, guarded_repository,
  service_get_active, to_fetched,
}

module _ {D C : Type 0} (driver : Collection D) (config : Config) (ops : Cache C)
    (IsKept : C → Type 0) (configured : List ℤ)
    (laws : CacheLaws ops (IsAnswer configured) IsKept) where
  -- The service says that nothing is configured, and does not call the database.
  refused_lem :
      (reads : Reads) (g : Guarded D)
      → g.breaker.state ≡ open_state
      → reads.admitted_at < g.breaker.last_failure_time + config.timeout
      → service_get_active (some (guarded_repository config (plain_repository driver))) reads g
        ≡ (g, answered none)
  unfolding service_get_active guarded_repository guarded
  refused_lem reads g is_open early =
      let shut : admit config g.breaker reads.admitted_at ≡ (g.breaker, false) =
        unfold admit in ground arith in
      rw shut refl

  nothing_lem :
      (h : Handler C) (t : Times)
      → get_sizes h.sizes_cache t.got ≡ none
      → (get_pack_sizes h.sizes_cache h.has_sizes_service (some nothing) t).1 ≡ []
  unfolding get_pack_sizes get_active
  nothing_lem h t miss = ground arith

  -- While the breaker is open and its timeout has not passed, with no sizes in the cache of the
  -- endpoint, and for a ready calculator whose cache obeys `CacheLaws`, an order of at least one
  -- item that names no sizes, and sums of the order and of twice a configured size that are an
  -- `int`: the service of pack sizes leaves the database and the breaker as they are, and the
  -- endpoint still answers with status 200 and the best choice of the configured packs.
  pub degraded-IsAnswered :
      (h : Handler C) (items : ℕ) (t : Times) (reads : Reads) (g : Guarded D)
      → g.breaker.state ≡ open_state
      → reads.admitted_at < g.breaker.last_failure_time + config.timeout
      → get_sizes h.sizes_cache t.got ≡ none
      → IsReady IsKept h.calculator
      → h.calculator.pack_sizes ≡ configured
      → 0 < items
      → HasSmallSums items configured
      → (let r =
            service_get_active
              (some (guarded_repository config (plain_repository driver)))
              reads
              g in
          (r.0 ≡ g)
          × Returns (IsAnswered ops IsKept configured laws configured items) (
              calculate_packs ops h
                (some (record { items_ordered = pos items; pack_sizes = [] }))
                (some (to_fetched r.1))
                t))
  degraded-IsAnswered h items t reads g is_open early miss ready same items_pos small =
      let none_left = nothing_lem h t miss in
      let sizes : offered h [] (some nothing) t configured ≡ configured =
        ap (λ zs. or_else zs configured) none_left in
      let found =
        calculate_packs-offered ops IsKept configured laws h items [] (some nothing) t ready same
          items_pos (λ e. rw none_left tt) (subst (HasSmallSums items) (sym sizes) small) in
      rw (refused_lem reads g is_open early) (
        refl,
        subst
            (λ zs. Returns (IsAnswered ops IsKept configured laws zs items) (
              calculate_packs ops h (some (record { items_ordered = pos items; pack_sizes = [] }))
                (some nothing) t))
            sizes found,
      )
