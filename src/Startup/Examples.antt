-- ===== src/Startup/Examples.antt =====
-- Configurations that are read from texts, and start-up at an environment.
use pack_service.Base.{
  ℕ, ◌≡◌, refl, true, List, [], ◌∷◌, map, Option, none, arith, if◌then◌else◌, Returns, ◌>>=◌,
}
use pack_service.Base.Int.{ℤ, pos, pos_part}
use pack_service.Packs.{PackResult}
use pack_service.Packs.Selection.{IsBest}
use pack_service.Packs.Table.{DpState}
use pack_service.Packs.Calculator.{sort_descending, calculate}
use pack_service.Packs.Service.{IsReady, IsAnswer}
use pack_service.TtlCache.{Entry, new_ttl_cache}
use pack_service.TtlCache.Client.{
  Timed, timed_cache, IsKept, timed_cache-CacheLaws, new_ttl_cache-IsKept,
}
use pack_service.Startup.{
  Environment, Config, load, parse_int_slice, parse_api_keys, initialize_services,
}
use pack_service.Startup.Sizes.{parse_int_slice-join}
use pack_service.Startup.Ready.{initialize_services-IsBest}
use pack_service.Text.{Text, codes, split, atoi, trim_space, parse_bool}
use pack_service.Base.Dict.{put}
use pack_service.Text.Pieces.{join}
use pack_service.Text.Decimal.{print}
use text.Mathlib.Text.{◌==◌ as str_eq}

parse_int_slice-test : parse_int_slice (codes " 5, x,-3,,0,+7,12 ") ≡ pos 5 ∷ pos 7 ∷ pos 12 ∷ []
unfolding parse_int_slice split atoi trim_space
parse_int_slice-test = refl

parse_int_slice-join_example :
    parse_int_slice (join b',' (map print (250 ∷ 500 ∷ 1000 ∷ [])))
    ≡ pos 250 ∷ pos 500 ∷ pos 1000 ∷ []
parse_int_slice-join_example = parse_int_slice-join (250 ∷ 500 ∷ 1000 ∷ []) (omega arith)

-- A key that is there twice is kept once.
parse_api_keys-test :
    parse_api_keys (codes "k1, k2 ,,k1") ≡ (codes "k1", true) ∷ (codes "k2", true) ∷ []
unfolding parse_api_keys split trim_space put
parse_api_keys-test = refl

-- An environment with four variables.
abbrev variables : Environment
variables key =
    if str_eq key "PACK_SIZES"
    then codes "4,9, 5"
    else if str_eq key "CACHE_SIZE"
    then codes "20"
    else if str_eq key "AUTH_ENABLED"
    then codes "T"
    else if str_eq key "RATE_LIMIT"
    then codes "many"
    else []

abbrev no_duration : Text → Option ℤ
no_duration s = none

abbrev config : Config
config = load no_duration variables

load-test :
    (config.cache.size ≡ pos 20)
    × (config.cache.pack_sizes ≡ pos 4 ∷ pos 9 ∷ pos 5 ∷ [])
    × (config.auth.enabled ≡ true)
    × (config.server.rate_limit ≡ pos 100)
    × (config.cache.ttl ≡ pos 300_000_000_000)
unfolding load parse_int_slice split atoi trim_space parse_bool
load-test = (refl, refl, refl, refl, refl)

abbrev empty_result : PackResult
empty_result = record { packs = []; total_items = pos 0; ordered_items = pos 0 }

abbrev blank : ℕ → Entry
blank a = record { key = pos 0; value = empty_result; expires_at = 0; prev = none; next = none }

abbrev new_cache : ℤ → ℤ → Timed
new_cache size ttl = (new_ttl_cache (pos_part size) (pos_part ttl) blank, 0)

abbrev idle : DpState
idle = record { dp = record { cells = []; spare = [] }; parent = record { cells = []; spare = [] } }

abbrev chosen : List ℤ
chosen = pos 9 ∷ pos 5 ∷ pos 4 ∷ []

initialize_services-IsBest_example :
    Returns
      (λ r.
        IsBest chosen 12 r.1 × IsReady (IsKept (IsAnswer chosen)) r.0 × (r.0.pack_sizes ≡ chosen))
      (initialize_services new_cache (load no_duration variables).cache idle >>= λ s.
        calculate (timed_cache (λ n. n)) s (pos 12))
unfolding sort_descending load parse_int_slice split atoi trim_space
initialize_services-IsBest_example =
    initialize_services-IsBest (timed_cache (λ n. n)) (IsKept (IsAnswer chosen)) new_cache
      no_duration variables idle 12 chosen refl
      (λ n ttl h. new_ttl_cache-IsKept (IsAnswer chosen) n (pos_part ttl) blank)
      (timed_cache-CacheLaws (IsAnswer chosen) (λ n. n)) (omega arith) (omega arith) (omega arith)
