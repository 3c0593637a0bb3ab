-- ===== src/Startup.antt =====
-- config/config.go: the configuration that is read from the environment, and
-- internal/app/services.go with initializeDefaultPackSizes of internal/app/database.go: what
-- start-up makes of it. The environment gives each variable a text, which is empty where it is not
-- set. Go's `time.ParseDuration` computes with floating-point numbers and is a parameter. A
-- duration is in nanoseconds.
pub mod Sizes
pub mod Ready
mod Examples
use pack_service.Base.{
  ℕ, ◌+◌, ◌*◌, Bool, true, false, List, [], ◌∷◌, ◌++◌, map, Option, none, some, if◌then◌else◌,
  Outcome,
}
use pack_service.Base.Int.{ℤ, pos, ltb_ℤ}
use pack_service.Base.Dict.{put}
use pack_service.Packs.Calculator.{
  Service, Setting, with_pack_sizes, with_cache, default_pack_sizes, new_service,
}
use pack_service.Handler.{PackSizeConfig}
use pack_service.Packs.Table.{DpState}
use pack_service.PackSizes.{Failure, Answer, refused, answered, Reads, Repository}
use pack_service.Text.{Text, codes, text_key, trim_space, split, atoi, parse_bool}
use Prim.Native.String.{String}

abbrev pub Environment : Type 0
Environment = String → Text

pub record ServerConfig : Type 0 where
  pub port : Text
  pub rate_limit : ℤ
  pub rate_window : ℤ
  pub cors_origins : List Text
  pub swagger_user : Text
  pub swagger_pass : Text

pub record CacheConfig : Type 0 where
  pub size : ℤ
  pub ttl : ℤ
  pub pack_sizes : List ℤ

pub record AuthConfig : Type 0 where
  pub enabled : Bool
  pub api_keys : List (Text × Bool)
  pub jwt_secret_key : Text
  pub jwt_refresh_secret : Text
  pub access_token_ttl : ℤ
  pub refresh_token_ttl : ℤ

pub record DatabaseConfig : Type 0 where
  pub uri : Text
  pub database_name : Text
  pub logs_ttl : ℤ
  pub enabled : Bool
  pub failure_threshold : ℤ
  pub success_threshold : ℤ
  pub timeout : ℤ

pub record Config : Type 0 where
  pub server : ServerConfig
  pub cache : CacheConfig
  pub auth : AuthConfig
  pub database : DatabaseConfig

abbrev pub or_default : {A : Type 0} → Option A → A → A
or_default none d = d
or_default (some a) d = a

-- A text that is not empty, or the default.
unfoldable pub non_empty_or : Text → Text → Text
non_empty_or [] d = d
non_empty_or (c ∷ s) d = c ∷ s

-- What a parser makes of a text that is not empty, or the default.
unfoldable pub parsed_or : {A : Type 0} → (Text → Option A) → Text → A → A
parsed_or parse [] d = d
parsed_or parse (c ∷ s) d = or_default (parse (c ∷ s)) d

-- The parts of a list that are numbers above 0.
unfoldable pub positive_parts : List Text → List ℤ
positive_parts [] = []
positive_parts (p ∷ ps) =
    let rest = positive_parts ps in
    elim (atoi (trim_space p)) [ none ↦ rest | some v ↦ if ltb_ℤ (pos 0) v then v ∷ rest else rest ]

-- `parseIntSlice`, where nil is the empty list
unfoldable pub parse_int_slice : Text → List ℤ
unfolding positive_parts
parse_int_slice [] = []
parse_int_slice (c ∷ s) = positive_parts (split b',' (c ∷ s))

-- The parts that are not empty when they are trimmed.
unfoldable pub filled_parts : List Text → List Text
filled_parts [] = []
filled_parts (p ∷ ps) =
    let rest = filled_parts ps in elim (trim_space p) [ [] ↦ rest | c ∷ s ↦ (c ∷ s) ∷ rest ]

unfoldable pub add_keys : List (Text × Bool) → List Text → List (Text × Bool)
add_keys m [] = m
add_keys m (k ∷ ks) = add_keys (put k true m) ks

-- `parseAPIKeys`: nil is the empty map.
unfoldable pub parse_api_keys : Text → List (Text × Bool)
unfolding filled_parts add_keys
parse_api_keys [] = []
parse_api_keys (c ∷ s) = add_keys [] (filled_parts (split b',' (c ∷ s)))

abbrev pub local_origins : List Text
local_origins = map codes ("http://localhost:3000" ∷ "http://127.0.0.1:3000" ∷ [])

-- `parseCORSOrigins`
unfoldable pub parse_cors_origins : Text → List Text
unfolding filled_parts
parse_cors_origins [] = local_origins
parse_cors_origins (c ∷ s) = local_origins ++ filled_parts (split b',' (c ∷ s))

abbrev pub second : ℕ
second = 1_000_000_000

module _ (parse_duration : Text → Option ℤ) (env : Environment) where
  -- `getEnv`, `getEnvInt`, `getEnvBool` and `getEnvDuration`
  get_env : String → String → Text
  unfolding non_empty_or
  get_env key d = non_empty_or (env key) (codes d)

  get_env_int : String → ℕ → ℤ
  unfolding parsed_or
  get_env_int key d = parsed_or atoi (env key) (pos d)

  get_env_bool : String → Bool → Bool
  unfolding parsed_or
  get_env_bool key d = parsed_or parse_bool (env key) d

  get_env_duration : String → ℕ → ℤ
  unfolding parsed_or
  get_env_duration key d = parsed_or parse_duration (env key) (pos d)

  -- `Load`
  unfoldable pub load : Config
  unfolding get_env get_env_int get_env_bool get_env_duration
  load = record {
    server = record {
      port = get_env "PORT" "8080";
      rate_limit = get_env_int "RATE_LIMIT" 100;
      rate_window = get_env_duration "RATE_WINDOW" (60 * second);
      cors_origins = parse_cors_origins (env "CORS_ORIGINS");
      swagger_user = get_env "SWAGGER_USER" "";
      swagger_pass = get_env "SWAGGER_PASS" "";
    };
    cache = record {
      size = get_env_int "CACHE_SIZE" 1000;
      ttl = get_env_duration "CACHE_TTL" (5 * 60 * second);
      pack_sizes = parse_int_slice (env "PACK_SIZES");
    };
    auth = record {
      enabled = get_env_bool "AUTH_ENABLED" false;
      api_keys = parse_api_keys (env "API_KEYS");
      jwt_secret_key = get_env "JWT_SECRET_KEY" "your-secret-key-change-in-production";
      jwt_refresh_secret =
          get_env "JWT_REFRESH_SECRET_KEY" "your-refresh-secret-key-change-in-production";
      access_token_ttl = get_env_duration "JWT_ACCESS_TOKEN_TTL" (15 * 60 * second);
      refresh_token_ttl = get_env_duration "JWT_REFRESH_TOKEN_TTL" (7 * 24 * 3600 * second);
    };
    database = record {
      uri = get_env "MONGODB_URI" "mongodb://localhost:27017";
      database_name = get_env "MONGODB_DATABASE" "pack_service";
      logs_ttl = get_env_duration "MONGODB_LOGS_TTL" (30 * 24 * 3600 * second);
      enabled = get_env_bool "MONGODB_ENABLED" false;
      failure_threshold = get_env_int "CIRCUIT_BREAKER_FAILURE_THRESHOLD" 5;
      success_threshold = get_env_int "CIRCUIT_BREAKER_SUCCESS_THRESHOLD" 2;
      timeout = get_env_duration "CIRCUIT_BREAKER_TIMEOUT" (30 * second);
    };
  }

module _ {C : Type 0} (new_cache : ℤ → ℤ → C) where
  -- The options of `InitializeServices`. `new_cache` is the cache that `WithCache` makes of a size
  -- that is positive and of a time to live.
  abbrev pub size_settings : List ℤ → List (Setting C)
  size_settings [] = []
  size_settings (z ∷ zs) = with_pack_sizes (z ∷ zs) ∷ []

  abbrev pub cache_settings : ℤ → ℤ → List (Setting C)
  cache_settings size ttl =
      if ltb_ℤ (pos 0) size then with_cache (some (new_cache size ttl)) ∷ [] else []

  -- `InitializeServices`
  unfoldable pub initialize_services : CacheConfig → DpState → Outcome (Service C)
  initialize_services cfg pool =
      new_service (size_settings cfg.pack_sizes ++ cache_settings cfg.size cfg.ttl) pool

-- The default sizes that `InitializeApp` passes on, and the same test in the function below.
abbrev pub sizes_or_default : List ℤ → List ℤ
sizes_or_default [] = default_pack_sizes
sizes_or_default (z ∷ zs) = z ∷ zs

-- `initializeDefaultPackSizes`: `reads` are those of its two calls.
module _ {S : Type 0} (repo : Repository S) where
  abbrev pub create_default :
      List ℤ → Reads → S × Answer (Option PackSizeConfig) → S × Answer (Unit {0})
  create_default sizes reads (s, refused e) = (s, refused e)
  create_default sizes reads (s, answered (some config)) = (s, answered tt)
  create_default sizes reads (s, answered none) =
      let (s', a) = repo.create (sizes_or_default sizes) "system" reads s in
      (s', elim a [ refused e ↦ refused e | answered config ↦ answered tt ])

  unfoldable pub initialize_default_pack_sizes : List ℤ → Reads → Reads → S → S × Answer (Unit {0})
  initialize_default_pack_sizes sizes reads later s =
      create_default sizes later (repo.get_active reads s)
