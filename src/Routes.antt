-- ===== src/Routes.antt =====
-- internal/http/routes_auth.go and internal/http/routes_packs.go: the routes that are registered
-- when JWT authentication is enabled, with internal/service/permission.go for the permissions that
-- they ask for. The state `D` holds the database and what the handlers work on. The repository of
-- permissions is a parameter that gives the hexadecimal id of a permission, none, or an error.
-- `none` is a nil service.
pub mod Protected
pub mod Permissions
mod Examples
use pack_service.Base.{
  ℕ, Bool, true, false, List, [], ◌∷◌, Option, none, some, not, if◌then◌else◌, Outcome, returns,
  ◌>>=◌,
}
use pack_service.Base.Int.{ℤ, pos, ltb_ℤ}
use pack_service.Base.Dict.{string_eq, ◌==◌}
use pack_service.Authorization.{
  Claims, AuthorizationConfig, ContextValue, claims, FoundRole, Decision, unauthorized, forbidden,
  passes, require_authorization,
}
use pack_service.Tokens.{Result, err, ok, Jwt, TokenRepository, TokenConfig}
use pack_service.Auth.{UserRepository, RoleRepository, Crypto}
use pack_service.AuthHandler.{Passage, refused, admitted, jwt_auth}
use pack_service.RateLimit.{Limiter, Verdict, new_limiter, user_rate_limit}
use Prim.Native.String.{String}

-- `FindByResourceAndAction` of the repository of permissions
abbrev pub FindPermission : Type 0
FindPermission = String → String → Result (Option String)

abbrev pub id_or_empty : Result (Option String) → String
id_or_empty (err e) = ""
id_or_empty (ok none) = ""
id_or_empty (ok (some id)) = id

-- `GetPermissionIDByResourceAndAction`, with a repository that may be nil
unfoldable pub permission_id : Option FindPermission → String → String → String
permission_id none resource action = ""
permission_id (some find) resource action = id_or_empty (find resource action)

-- `getPermissionIDs`: the ids to read and to write packs
unfoldable pub permission_ids : Option (Option FindPermission) → String × String
unfolding permission_id
permission_ids none = ("", "")
permission_ids (some repo) = (permission_id repo "packs" "read", permission_id repo "packs" "write")

-- The endpoints behind the JWT middleware
pub data Endpoint : Type 0 where
  logout_endpoint : Endpoint
  calculate_endpoint : Endpoint
  get_pack_sizes_endpoint : Endpoint
  list_pack_sizes_endpoint : Endpoint
  update_pack_sizes_endpoint : Endpoint

-- The authorization of a route: `some` is a `RequireAuthorization`, and `none` is none.
abbrev pub auth_middleware :
    {ObjectId : Type 0}
    → String
    → Option (ObjectId → FoundRole)
    → Option (Option FindPermission)
    → Option AuthorizationConfig
auth_middleware perm_id (some find) (some repo) =
    if not (perm_id == "")
    then some (record {
      required_roles = [];
      required_permissions = perm_id ∷ [];
      require_all_permissions = false;
    })
    else none
auth_middleware perm_id none repo = none
auth_middleware perm_id (some find) none = none

-- `RegisterProtectedRoutes` and `registerPackSizesRoutes`, with the route of the logout
unfoldable pub guard_of :
    {ObjectId : Type 0}
    → Option (ObjectId → FoundRole)
    → Option (Option FindPermission)
    → Endpoint
    → Option AuthorizationConfig
unfolding permission_ids
guard_of role_service permissions logout_endpoint = none
guard_of role_service permissions calculate_endpoint =
    auth_middleware (permission_ids permissions).1 role_service permissions
guard_of role_service permissions get_pack_sizes_endpoint =
    auth_middleware (permission_ids permissions).0 role_service permissions
guard_of role_service permissions list_pack_sizes_endpoint =
    auth_middleware (permission_ids permissions).0 role_service permissions
guard_of role_service permissions update_pack_sizes_endpoint =
    auth_middleware (permission_ids permissions).1 role_service permissions

-- The limiter of `GetProtectedGroup`
unfoldable pub user_limiter : ℤ → ℕ → Option Limiter
user_limiter rate window = if ltb_ℤ (pos 0) rate then some (new_limiter rate window) else none

-- How a request to a protected route ends: a middleware answers it, or the handler does.
pub data Reply (A : Type 0) : Type 0 where
  unauthenticated : (key : String) → Reply A
  rate_limited : Reply A
  denied : Decision → Reply A
  handled : A → Reply A

module _ {D ObjectId : Type 0} (jwt : Jwt) (tokens : TokenRepository D) (cfg : TokenConfig)
    (users : UserRepository D) (roles : RoleRepository D) (crypto : Crypto)
    (object_id_from_hex : String → Option ObjectId) (service : Option (ObjectId → FoundRole)) where
  -- `UserRateLimit`, where there is a limiter
  unfoldable pub limit_user :
      Option Limiter → Claims → String → ℕ → Outcome (Option Limiter × Verdict)
  limit_user none c ip now = returns (none, Verdict.passes)
  limit_user (some rl) c ip now = do
    (rl', verdict) ← user_rate_limit rl (some (crypto.hex c.user_id)) ip now
    returns (some rl', verdict)

  -- The `RequireAuthorization` of the route, where there is one
  unfoldable pub authorize : Option AuthorizationConfig → Claims → Decision
  authorize none c = passes
  authorize (some config) c = require_authorization object_id_from_hex config service (claims c)

  module _ {A : Type 0} (guard : Option AuthorizationConfig) (handler : D → Outcome (D × A)) where
    abbrev pub handle : Decision → Option Limiter → D → Outcome ((D × Option Limiter) × Reply A)
    handle passes rl d = handler d >>= λ r. returns ((r.0, rl), handled r.1)
    handle unauthorized rl d = returns ((d, rl), denied unauthorized)
    handle forbidden rl d = returns ((d, rl), denied forbidden)

    abbrev pub admit :
        Verdict → Option Limiter → Claims → D → Outcome ((D × Option Limiter) × Reply A)
    admit Verdict.too_many_requests rl c d = returns ((d, rl), rate_limited)
    admit Verdict.passes rl c d = handle (authorize guard c) rl d

    abbrev pub pass :
        Passage → String → ℕ → Option Limiter → D → Outcome ((D × Option Limiter) × Reply A)
    pass (refused key) ip now rl d = returns ((d, rl), unauthenticated key)
    pass (admitted c) ip now rl d = limit_user rl c ip now >>= λ r. admit r.1 r.0 c d

    -- The chain of a protected route: `JWTAuth`, the limiter, the authorization, and the handler
    unfoldable pub protected_route :
        String → String → ℕ → D × Option Limiter → Outcome ((D × Option Limiter) × Reply A)
    protected_route header ip now (d, rl) =
        let r = jwt_auth jwt tokens cfg users roles crypto header now d in pass r.1 ip now rl r.0
