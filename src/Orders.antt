-- ===== src/Orders.antt =====
-- internal/app/router.go puts the calculator and its cache together: a calculator with the LRU
-- cache serves orders. Each theorem on the calculator at an input.
use pack_service.Base.{
  true, ℕ, ◌≡◌, ◌≢◌, refl, sym, subst, List, [], ◌∷◌, none, some, arith, inl, inr, Returns,
}
use pack_service.Base.Int.{ℤ, pos, negsuc}
use pack_service.Packs.{PackResult}
use pack_service.Packs.Selection.{IsPositive, IsBest}
use pack_service.Packs.Table.{DpState}
use pack_service.Packs.Calculator.{
  Service, default_pack_sizes, last_size, calculate_core, calculate, calculate_with_pack_sizes,
}
use pack_service.Packs.Pool.{IsUsableState}
use pack_service.Packs.Optimal.{IsMenu, InRange, calculate_core-IsBest}
use pack_service.Packs.Service.{
  IsReady, IsAnswer, calculate_with_pack_sizes-IsBest, calculate-IsBest,
}
use pack_service.Handler.{
  Handler, PackSizeConfig, fetched, Times, get_sizes, get_pack_sizes, calculate_packs,
}
use pack_service.Handler.Answers.{IsAnswered, get_pack_sizes-kept}
use pack_service.Handler.Offers.{Offers, own, held, in_database, calculate_packs-IsAnswered}
use pack_service.Breaker.{open_state, default_config}
use pack_service.PackSizes.{
  Reads, Guarded, guarded_repository, plain_repository, service_get_active, to_fetched,
}
use pack_service.PackSizes.Degraded.{degraded-IsAnswered}
use pack_service.PackSizes.Memory.{memory}
use pack_service.TtlCache.{Entry, new_ttl_cache}
use pack_service.TtlCache.Client.{
  Timed, timed_cache, IsKept, timed_cache-CacheLaws, new_ttl_cache-IsKept,
}

abbrev idle : DpState
idle = record { dp = record { cells = []; spare = [] }; parent = record { cells = []; spare = [] } }

idle-IsUsableState : IsUsableState idle
idle-IsUsableState = omega arith

abbrev sizes : List ℤ
sizes = pos 9 ∷ pos 5 ∷ pos 4 ∷ []

abbrev empty_result : PackResult
empty_result = record { packs = []; total_items = pos 0; ordered_items = pos 0 }

abbrev blank : ℕ → Entry
blank a = record { key = pos 0; value = empty_result; expires_at = 0; prev = none; next = none }

sizes-IsMenu : IsMenu sizes 4
unfolding last_size
sizes-IsMenu = record {
  last = refl;
  on_offer = inr (inr (inl refl));
  positive = omega arith;
  least = omega arith;
}

sizes-InRange : InRange 12 4 sizes
sizes-InRange = omega arith

calculate_core-IsBest_example :
    Returns (λ r. IsUsableState r.0 × IsBest sizes 12 r.1) (calculate_core idle 12 sizes (pos 4))
calculate_core-IsBest_example =
    calculate_core-IsBest idle 12 4 sizes idle-IsUsableState (omega arith) sizes-IsMenu
      sizes-InRange

abbrev unsorted : List ℤ
unsorted = pos 4 ∷ pos 9 ∷ pos 5 ∷ []

unsorted-ne : unsorted ≢ []
unsorted-ne = λ e. cc

-- The calculator with the default sizes and a new cache for 100 results.
abbrev Kept : Timed → Type 0
Kept = IsKept (IsAnswer default_pack_sizes)

abbrev new_cache : Timed
new_cache = (new_ttl_cache 100 300 blank, 0)

abbrev shop : Service Timed
shop = record {
  pack_sizes = default_pack_sizes;
  smallest_pack = pos 250;
  cache = some new_cache;
  pool = idle;
}

shop-IsReady : IsReady Kept shop
unfolding last_size
shop-IsReady = record {
  smallest = 250;
  smallest_last = refl;
  menu = record {
    last = refl;
    on_offer = inr (inr (inr (inr (inl refl))));
    positive = omega arith;
    least = omega arith;
  };
  usable = idle-IsUsableState;
  kept = new_ttl_cache-IsKept (IsAnswer default_pack_sizes) 100 300 blank;
}

calculate-IsBest_example :
    Returns
      (λ r.
        IsBest default_pack_sizes 12001 r.1
        × IsReady Kept r.0
        × (r.0.pack_sizes ≡ default_pack_sizes))
      (calculate (timed_cache (λ n. n)) shop (pos 12001))
calculate-IsBest_example =
    calculate-IsBest (timed_cache (λ n. n)) Kept default_pack_sizes
      (timed_cache-CacheLaws (IsAnswer default_pack_sizes) (λ n. n)) shop 12001 shop-IsReady refl
      (omega arith) (omega arith)

calculate_with_pack_sizes-IsBest_example :
    Returns
      (λ r.
        IsBest unsorted 12 r.1
        × IsUsableState r.0.pool
        × (r.0.cache ≡ shop.cache)
        × (r.0.pack_sizes ≡ shop.pack_sizes)
        × (r.0.smallest_pack ≡ shop.smallest_pack))
      (calculate_with_pack_sizes (timed_cache (λ n. n)) shop (pos 12) unsorted)
calculate_with_pack_sizes-IsBest_example =
    calculate_with_pack_sizes-IsBest (timed_cache (λ n. n)) shop 12 unsorted idle-IsUsableState
      (omega arith) unsorted-ne (omega arith) (omega arith)

-- A request names its sizes, one of them not positive, and the database has none.
abbrev desk : Handler Timed
desk = record {
  calculator = shop;
  has_sizes_service = true;
  sizes_cache = record { sizes = none; expires_at = 0; ttl = 30 };
}

abbrev named : List ℤ
named = pos 4 ∷ negsuc 2 ∷ pos 9 ∷ []

abbrev at_once : Times
at_once = record { got = 5; tested = 5; stored = 6 }

abbrev positive_ones : List ℤ
positive_ones = pos 4 ∷ pos 9 ∷ []

named-Offers : Offers desk named none at_once default_pack_sizes positive_ones
named-Offers = own (pos 4) (inl refl) (λ z. (
  (λ m. elim m [
    | inl e ↦ (inl e, subst IsPositive (sym e) (omega arith))
    | inr (inl e) ↦ (inr (inr (inl e)), subst IsPositive (sym e) (omega arith))
    | inr (inr n) ↦ absurd n
  ]),
  λ m. elim m.0 [
    | inl e ↦ inl e
    | inr (inl e) ↦ absurd (subst IsPositive e m.1)
    | inr (inr (inl e)) ↦ inr (inl e)
    | inr (inr (inr n)) ↦ absurd n
  ],
))

calculate_packs-IsAnswered_example :
    Returns
      (IsAnswered
        (timed_cache (λ n. n))
        Kept
        default_pack_sizes
        (timed_cache-CacheLaws (IsAnswer default_pack_sizes) (λ n. n))
        positive_ones
        12)
      (calculate_packs
        (timed_cache (λ n. n))
        desk
        (some (record { items_ordered = pos 12; pack_sizes = named }))
        none
        at_once)
calculate_packs-IsAnswered_example =
    calculate_packs-IsAnswered (timed_cache (λ n. n)) Kept default_pack_sizes
      (timed_cache-CacheLaws (IsAnswer default_pack_sizes) (λ n. n)) desk 12 named positive_ones
      none at_once named-Offers shop-IsReady refl (omega arith) (omega arith) (omega arith)

abbrev stored_config : PackSizeConfig
stored_config = record {
  id = "1";
  sizes = sizes;
  active = true;
  version = pos 1;
  created_at = 1;
  updated_at = 1;
  created_by = "admin";
}

abbrev soon : Times
soon = record { got = 20; tested = 20; stored = 20 }

some_sizes : stored_config.sizes ≢ []
some_sizes = λ e. cc

-- A request without sizes is offered those of the database.
stored-Offers : Offers desk [] (some (fetched stored_config)) at_once default_pack_sizes sizes
stored-Offers = held refl some_sizes (in_database (inr refl) refl refl)

get_pack_sizes-kept_example :
    let first = get_pack_sizes desk.sizes_cache true (some (fetched stored_config)) at_once in
    (first.1 ≡ sizes) × ((get_pack_sizes first.0 true none soon).1 ≡ sizes)
get_pack_sizes-kept_example =
    get_pack_sizes-kept desk.sizes_cache stored_config none at_once soon (omega arith) (omega arith)
      some_sizes (omega arith)

-- The database has failed, and an order comes without sizes.
abbrev refusing : Guarded (List PackSizeConfig)
refusing = record {
  inner = [];
  breaker = record {
    state = open_state;
    failure_count = 5;
    success_count = 0;
    last_failure_time = 9;
  };
}

abbrev early : Reads
early = record {
  admitted_at = 10;
  changed_at = 10;
  created_at = 10;
  updated_at = 10;
  ended_at = 10;
  new_id = "";
}

no_cached_sizes : get_sizes desk.sizes_cache at_once.got ≡ none
unfolding get_sizes
no_cached_sizes = refl

degraded-IsAnswered_example :
    let r =
      service_get_active
        (some (guarded_repository default_config (plain_repository memory)))
        early
        refusing in
    (r.0 ≡ refusing)
    × Returns
        (IsAnswered
          (timed_cache (λ n. n))
          Kept
          default_pack_sizes
          (timed_cache-CacheLaws (IsAnswer default_pack_sizes) (λ n. n))
          default_pack_sizes
          12)
        (calculate_packs
          (timed_cache (λ n. n))
          desk
          (some (record { items_ordered = pos 12; pack_sizes = [] }))
          (some (to_fetched r.1))
          at_once)
degraded-IsAnswered_example =
    degraded-IsAnswered memory default_config (timed_cache (λ n. n)) Kept default_pack_sizes
      (timed_cache-CacheLaws (IsAnswer default_pack_sizes) (λ n. n)) desk 12 at_once early refusing
      refl (omega arith) no_cached_sizes shop-IsReady refl (omega arith) (omega arith)
