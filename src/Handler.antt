-- ===== src/Handler.antt =====
-- internal/http/handler.go: the endpoint that calculates packs, with its cache of the pack sizes
-- that the database holds, and internal/service/pack_sizes.go and internal/domain/dto/request.go as
-- far as the endpoint uses them. The JSON binding of gin and the MongoDB repository are parameters:
-- a request arrives with the value that the binding gave (`none` where it failed), and with what
-- the repository would answer. The zero time is 0. Audit logs, metrics and the text of the messages
-- are left out.
pub mod Answers
pub mod Offers
use pack_service.Base.{
  ℕ, ◌+◌, ◌≡◌, Bool, true, false, List, [], ◌∷◌, Option, none, some, ltb, if◌then◌else◌, Outcome,
  returns, ◌>>=◌,
}
use pack_service.Base.Int.{ℤ, pos, negsuc, leb_ℤ, ltb_ℤ}
use pack_service.Packs.{PackResult}
use pack_service.Packs.Calculator.{Cache, Service, calculate, calculate_with_pack_sizes}
use Prim.Native.String.{String}

-- `packSizesCache`
pub record PackSizesCache : Type 0 where
  pub sizes : Option (List ℤ)
  pub expires_at : ℕ
  pub ttl : ℕ

-- `newPackSizesCache`
abbrev pub new_pack_sizes_cache : ℕ → PackSizesCache
new_pack_sizes_cache ttl = record { sizes = none; expires_at = 0; ttl = ttl }

-- `get` of the cache
unfoldable pub get_sizes : PackSizesCache → ℕ → Option (List ℤ)
get_sizes c now = if ltb now c.expires_at then c.sizes else none

-- `set` of the cache, which reads the clock once for the test and once for the expiry
unfoldable pub set_sizes : PackSizesCache → List ℤ → ℕ → ℕ → PackSizesCache
set_sizes c sizes now later =
    if ltb now c.expires_at then c else record c { sizes = some sizes; expires_at = later + c.ttl }

-- `invalidate` of the cache
unfoldable pub invalidate_sizes : PackSizesCache → PackSizesCache
invalidate_sizes c = record c { expires_at = 0 }

-- `PackSizeConfig` of internal/repository/pack_sizes.go, without its metadata
pub record PackSizeConfig : Type 0 where
  pub id : String
  pub sizes : List ℤ
  pub active : Bool
  pub version : ℤ
  pub created_at : ℕ
  pub updated_at : ℕ
  pub created_by : String

-- What `GetActive` of a repository answers: an error, no configuration, or a configuration.
pub data Fetched : Type 0 where
  failed : Fetched
  nothing : Fetched
  fetched : PackSizeConfig → Fetched

-- `PackSizesServiceImpl.GetActive`, where `none` is a service without a repository
unfoldable pub get_active : Option Fetched → Fetched
get_active none = failed
get_active (some answer) = answer

-- `Handler`. The service of pack sizes is there or not.
pub record Handler (C : Type 0) : Type 0 where
  pub calculator : Service C
  pub has_sizes_service : Bool
  pub sizes_cache : PackSizesCache

-- `NewHandler`, without or with `WithPackSizesCacheTTL`: the default is 30 seconds.
unfoldable pub new_handler : {C : Type 0} → Service C → Bool → Option ℕ → Handler C
new_handler calculator has_service none = record {
  calculator = calculator;
  has_sizes_service = has_service;
  sizes_cache = new_pack_sizes_cache 30000000000;
}
new_handler calculator has_service (some ttl) = record {
  calculator = calculator;
  has_sizes_service = has_service;
  sizes_cache = new_pack_sizes_cache ttl;
}

-- The times that a request reads: in `get` of the cache, and twice in `set`.
pub record Times : Type 0 where
  pub got : ℕ
  pub tested : ℕ
  pub stored : ℕ

-- The end of `getPackSizes`: what is done with the answer of the database.
abbrev pub keep_sizes : PackSizesCache → Fetched → Times → PackSizesCache × List ℤ
keep_sizes c failed t = (c, [])
keep_sizes c nothing t = (c, [])
keep_sizes c (fetched config) t = elim config.sizes [
  | [] ↦ (c, [])
  | z ∷ zs ↦ (set_sizes c (z ∷ zs) t.tested t.stored, z ∷ zs)
]

-- `getPackSizes`. The result is only tested for its length, so that nil is the empty list.
unfoldable pub get_pack_sizes :
    PackSizesCache → Bool → Option Fetched → Times → PackSizesCache × List ℤ
unfolding get_sizes set_sizes get_active
get_pack_sizes c has_service answer t = elim (get_sizes c t.got) [
  | some sizes ↦ (c, sizes)
  | none ↦ if has_service then keep_sizes c (get_active answer) t else (c, [])
]

-- `InvalidatePackSizesCache`
unfoldable pub invalidate_pack_sizes_cache : {C : Type 0} → Handler C → Handler C
unfolding invalidate_sizes
invalidate_pack_sizes_cache h = record h { sizes_cache = invalidate_sizes h.sizes_cache }

-- `CalculatePacksRequest`
pub record CalculatePacksRequest : Type 0 where
  pub items_ordered : ℤ
  pub pack_sizes : List ℤ

-- `Validate`: whether the request is accepted
unfoldable pub validate : CalculatePacksRequest → Bool
validate req = if leb_ℤ req.items_ordered (pos 0) then false else true

-- The response: status 400 with one of two messages, or status 200.
pub data Response : Type 0 where
  invalid_request_body : Response
  validation_items_ordered : Response
  success_ok : PackResult → Response

-- The loop that keeps the positive sizes.
unfoldable pub valid_pack_sizes : List ℤ → List ℤ
valid_pack_sizes [] = []
valid_pack_sizes (size ∷ sizes) =
    let rest = valid_pack_sizes sizes in if ltb_ℤ (pos 0) size then size ∷ rest else rest

module _ {C : Type 0} (ops : Cache C) where
  respond : Handler C → Outcome (Service C × PackResult) → Outcome (Handler C × Response)
  respond h m = m >>= λ r. returns (record h { calculator = r.0 }, success_ok r.1)

  -- `CalculateWithPackSizes` where there are sizes, `Calculate` where there are none.
  unfoldable pub by_sizes : Handler C → ℤ → List ℤ → Outcome (Handler C × Response)
  unfolding respond
  by_sizes h items [] = respond h (calculate ops h.calculator items)
  by_sizes h items (z ∷ zs) = respond h (calculate_with_pack_sizes ops h.calculator items (z ∷ zs))

  unfoldable pub answer_sizes :
      Handler C → ℤ → List ℤ → Option Fetched → Times → Outcome (Handler C × Response)
  unfolding by_sizes
  answer_sizes h items [] answer t =
      let (c, sizes) = get_pack_sizes h.sizes_cache h.has_sizes_service answer t in
      by_sizes (record h { sizes_cache = c }) items sizes
  answer_sizes h items (z ∷ zs) answer t = by_sizes h items (valid_pack_sizes (z ∷ zs))

  -- `CalculatePacks`
  unfoldable pub calculate_packs :
      Handler C
      → Option CalculatePacksRequest
      → Option Fetched
      → Times
      → Outcome (Handler C × Response)
  unfolding validate answer_sizes
  calculate_packs h none answer t = returns (h, invalid_request_body)
  calculate_packs h (some req) answer t =
      if validate req
      then answer_sizes h req.items_ordered req.pack_sizes answer t
      else returns (h, validation_items_ordered)
