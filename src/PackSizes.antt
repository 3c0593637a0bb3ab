-- ===== src/PackSizes.antt =====
-- internal/repository/pack_sizes.go, the part of internal/repository/circuitbreaker_wrapper.go that
-- is about it, internal/service/pack_sizes.go and internal/http/pack_sizes_handler.go: the
-- configurations of pack sizes, from the database to the endpoints. The MongoDB driver is a
-- parameter, `Collection`, over a state `D` of the database. Errors keep their kind and lose their
-- text, and a document has no metadata. A call of an endpoint arrives with the times that it reads
-- and the id that it draws. Audit logs are left out.
pub mod Laws
pub mod Active
pub mod Fresh
pub mod Guard
pub mod ReadBack
pub mod Degraded
pub mod Memory
mod Examples
use pack_service.Base.{ℕ, ◌≡◌, Bool, true, false, List, [], ◌∷◌, Option, none, some, if◌then◌else◌}
use pack_service.Base.Int.{ℤ, pos, ltb_ℤ}
use pack_service.Base.Machine.{add_int}
use pack_service.Breaker.{Config, Breaker, admit, settle}
use pack_service.Handler.{PackSizeConfig, Fetched, failed, nothing, fetched}
use pack_service.Packs.Calculator.{Cache, Service, invalidate_cache}
use text.Mathlib.Text.{◌==◌ as str_eq}
use Prim.Native.String.{String}

-- `mongo.ErrNoDocuments`, another error of the driver, `circuitbreaker.ErrCircuitOpen` and
-- `ErrRepositoryNotConfigured`
pub data Failure : Type 0 where
  no_documents driver_error circuit_open not_configured : Failure

pub data Answer (A : Type 0) : Type 0 where
  refused : Failure → Answer A
  answered : A → Answer A

-- The filters and the updates that the repository sends.
pub data Filter : Type 0 where
  active_is_true : Filter
  id_is : String → Filter

pub record SizesUpdate : Type 0 where
  pub sizes : List ℤ
  pub updated_at : ℕ
  pub version : ℤ
  pub updated_by : Option String

-- The collection of configurations, as the driver offers it: `FindOne`, `UpdateMany` that sets
-- `active` to false, `InsertOne`, `FindOneAndUpdate` and `Find` with the newest first.
pub record Collection (D : Type 0) : Type 0 where
  pub find_one : Filter → D → D × Answer PackSizeConfig
  pub deactivate_many : Filter → ℕ → D → D × Answer (Unit {0})
  pub insert_one : PackSizeConfig → D → D × Answer (Unit {0})
  pub find_one_and_update : Filter → SizesUpdate → D → D × Answer PackSizeConfig
  pub find_newest : Option ℤ → D → D × Answer (List PackSizeConfig)

-- What a call reads: the clock at the test of the breaker, at the change of the old documents,
-- twice for the new one, and at the end; and the id that it draws.
pub record Reads : Type 0 where
  pub admitted_at : ℕ
  pub changed_at : ℕ
  pub created_at : ℕ
  pub updated_at : ℕ
  pub ended_at : ℕ
  pub new_id : String

-- `PackSizesRepositoryInterface`
pub record Repository (S : Type 0) : Type 0 where
  pub get_active : Reads → S → S × Answer (Option PackSizeConfig)
  pub create : List ℤ → String → Reads → S → S × Answer PackSizeConfig
  pub update : String → List ℤ → String → Reads → S → S × Answer PackSizeConfig
  pub list : ℤ → Reads → S → S × Answer (List PackSizeConfig)

module _ {S : Type 0} where
  -- Go on after a call with its result, and stop at its error.
  abbrev pub proceed : {A B : Type 0} → S × Answer A → (A → S → S × Answer B) → S × Answer B
  proceed (s, refused e) k = (s, refused e)
  proceed (s, answered a) k = k a s

-- No document is nil, and no error.
abbrev pub or_nil : Answer PackSizeConfig → Answer (Option PackSizeConfig)
or_nil (refused no_documents) = answered none
or_nil (refused e) = refused e
or_nil (answered config) = answered (some config)

abbrev pub new_config : List ℤ → String → Reads → PackSizeConfig
new_config sizes created_by reads = record {
  id = reads.new_id;
  sizes = sizes;
  active = true;
  version = pos 1;
  created_at = reads.created_at;
  updated_at = reads.updated_at;
  created_by = created_by;
}

module _ {D : Type 0} (driver : Collection D) where
  -- `PackSizesRepository.GetActive`
  unfoldable pub get_active : Reads → D → D × Answer (Option PackSizeConfig)
  get_active reads d = let (d', found) = driver.find_one active_is_true d in (d', or_nil found)

  -- `PackSizesRepository.Create`
  unfoldable pub create : List ℤ → String → Reads → D → D × Answer PackSizeConfig
  create sizes created_by reads d =
      let config = new_config sizes created_by reads in
      proceed (driver.deactivate_many active_is_true reads.changed_at d)
        λ _ d1. proceed (driver.insert_one config d1) λ _ d2. (d2, answered config)

  -- `PackSizesRepository.Update`
  unfoldable pub update : String → List ℤ → String → Reads → D → D × Answer PackSizeConfig
  update id sizes updated_by reads d = proceed (driver.find_one (id_is id) d) λ current d1.
      driver.find_one_and_update (id_is id)
        (record {
          sizes = sizes;
          updated_at = reads.updated_at;
          version = add_int current.version (pos 1);
          updated_by = if str_eq updated_by "" then none else some updated_by;
        })
        d1

  -- `PackSizesRepository.List`
  unfoldable pub list : ℤ → Reads → D → D × Answer (List PackSizeConfig)
  list limit reads d = driver.find_newest (if ltb_ℤ (pos 0) limit then some limit else none) d

  unfoldable pub plain_repository : Repository D
  unfolding get_active create update list
  plain_repository = record {
    get_active = get_active;
    create = create;
    update = update;
    list = list;
  }

-- `PackSizesRepositoryWithCircuitBreaker`
pub record Guarded (S : Type 0) : Type 0 where
  pub inner : S
  pub breaker : Breaker

abbrev pub is_refused : {A : Type 0} → Answer A → Bool
is_refused (refused e) = true
is_refused (answered a) = false

-- An open circuit is no error to `GetActive`.
abbrev pub open_is_nil : Answer (Option PackSizeConfig) → Answer (Option PackSizeConfig)
open_is_nil (refused circuit_open) = answered none
open_is_nil a = a

module _ {S : Type 0} (config : Config) where
  -- `Execute` around a call
  unfoldable pub guarded :
      {A : Type 0} → (S → S × Answer A) → Reads → Guarded S → Guarded S × Answer A
  guarded call reads g =
      let (b, admitted) = admit config g.breaker reads.admitted_at in
      let (s, answer) = call g.inner in
      if admitted
      then (
        record { inner = s; breaker = settle config b (is_refused answer) reads.ended_at },
        answer,
      )
      else (record g { breaker = b }, refused circuit_open)

  -- The four methods of the wrapper
  unfoldable pub guarded_repository : Repository S → Repository (Guarded S)
  unfolding guarded
  guarded_repository repo = record {
    get_active =
        λ reads g. let (g', a) = guarded (repo.get_active reads) reads g in (g', open_is_nil a);
    create = λ sizes by reads. guarded (repo.create sizes by reads) reads;
    update = λ id sizes by reads. guarded (repo.update id sizes by reads) reads;
    list = λ limit reads. guarded (repo.list limit reads) reads;
  }

-- `PackSizesServiceImpl`: `none` is a service without a repository.
module _ {S : Type 0} where
  unfoldable pub service_get_active :
      Option (Repository S) → Reads → S → S × Answer (Option PackSizeConfig)
  service_get_active none reads s = (s, refused not_configured)
  service_get_active (some repo) reads s = repo.get_active reads s

  unfoldable pub service_create :
      Option (Repository S) → List ℤ → String → Reads → S → S × Answer PackSizeConfig
  service_create none sizes by reads s = (s, refused not_configured)
  service_create (some repo) sizes by reads s = repo.create sizes by reads s

  unfoldable pub service_update :
      Option (Repository S) → String → List ℤ → String → Reads → S → S × Answer PackSizeConfig
  service_update none id sizes by reads s = (s, refused not_configured)
  service_update (some repo) id sizes by reads s = repo.update id sizes by reads s

  unfoldable pub service_list :
      Option (Repository S) → ℤ → Reads → S → S × Answer (List PackSizeConfig)
  service_list none limit reads s = (s, refused not_configured)
  service_list (some repo) limit reads s = repo.list limit reads s

-- What the endpoint that calculates packs sees of the answer.
abbrev pub to_fetched : Answer (Option PackSizeConfig) → Fetched
to_fetched (refused e) = failed
to_fetched (answered none) = nothing
to_fetched (answered (some config)) = fetched config

-- `UpdatePackSizesRequest`
pub record UpdatePackSizesRequest : Type 0 where
  pub sizes : List ℤ
  pub created_by : String

-- Status 400, 404, 500, or 200 with a configuration or with all of them.
pub data SizesResponse : Type 0 where
  invalid_request not_found internal_error : SizesResponse
  sizes_ok : PackSizeConfig → SizesResponse
  history_ok : List PackSizeConfig → SizesResponse

abbrev pub answer_active : Answer (Option PackSizeConfig) → SizesResponse
answer_active (refused e) = internal_error
answer_active (answered none) = not_found
answer_active (answered (some config)) = sizes_ok config

abbrev pub answer_history : Answer (List PackSizeConfig) → SizesResponse
answer_history (refused e) = internal_error
answer_history (answered configs) = history_ok configs

-- The limit that `ListPackSizes` reads, where `none` is a query that is missing or no number.
abbrev pub limit_of : Option ℤ → ℤ
limit_of none = pos 0
limit_of (some l) = if ltb_ℤ (pos 0) l then l else pos 0

module _ {C : Type 0} (ops : Cache C) where
  -- `InvalidateCache`, where there is a calculator
  abbrev pub invalidate : Option (Service C) → Option (Service C)
  invalidate none = none
  invalidate (some calculator) = some (invalidate_cache ops calculator)

  abbrev pub answer_update :
      {S : Type 0}
      → Option (Service C)
      → S × Answer PackSizeConfig
      → S × Option (Service C) × SizesResponse
  answer_update calculator (s, refused e) = (s, calculator, internal_error)
  answer_update calculator (s, answered config) = (s, invalidate calculator, sizes_ok config)

module _ {S : Type 0} (service : Option (Repository S)) where
  -- `GetActivePackSizes`
  unfoldable pub get_active_pack_sizes : Reads → S → S × SizesResponse
  unfolding service_get_active
  get_active_pack_sizes reads s =
      let (s', a) = service_get_active service reads s in (s', answer_active a)

  -- `ListPackSizes`
  unfoldable pub list_pack_sizes : Option ℤ → Reads → S → S × SizesResponse
  unfolding service_list
  list_pack_sizes query reads s =
      let (s', a) = service_list service (limit_of query) reads s in (s', answer_history a)

  -- `UpdatePackSizes`: `none` is a body that the binding refuses, and a calculator may be nil.
  module _ {C : Type 0} (ops : Cache C) where
    unfoldable pub update_pack_sizes :
        Option UpdatePackSizesRequest
        → Reads
        → S
        → Option (Service C)
        → S × Option (Service C) × SizesResponse
    unfolding service_create
    update_pack_sizes none reads s calculator = (s, calculator, invalid_request)
    update_pack_sizes (some req) reads s calculator = elim req.sizes [
      | [] ↦ (s, calculator, invalid_request)
      | z ∷ zs ↦
          answer_update ops calculator (service_create service (z ∷ zs) req.created_by reads s)
    ]
