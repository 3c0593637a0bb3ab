-- ===== src/Routes/Examples.antt =====
-- Requests to update the pack sizes, with a token that is valid, and with other headers.
use pack_service.Base.{
  ℕ, ◌≡◌, ◌≢◌, refl, true, [], ◌∷◌, Option, none, some, arith, if◌then◌else◌, Outcome, returns,
}
use pack_service.Base.Int.{pos}
use pack_service.Base.Dict.{string_eq, ◌==◌ as str_eq, lookup, put}
use pack_service.Authorization.{
  Claims, AuthorizationConfig, FoundRole, no_role, role, Role, forbidden, require_authorization,
  user_roles, collect_permissions, granted, has_any,
}
use pack_service.Tokens.{err, ok, failure, ClaimsWithJwt, Jwt, validate_access_token}
use pack_service.Auth.Memory.{
  Store, listed, repository, member_claims, library, config, members, no_roles, plain,
}
use pack_service.AuthHandler.{bearer, bearer_of, jwt_auth}
use pack_service.RateLimit.{Limiter, new_sharded}
use pack_service.RateLimit.Visits.{new_sharded-IsSound}
use pack_service.Routes.{
  FindPermission, update_pack_sizes_endpoint, guard_of, Reply, unauthenticated, denied, handled,
  limit_user, authorize, protected_route,
}
use pack_service.Routes.Protected.{Ending, IsValidToken, protected_route-Ending}
use pack_service.Routes.Permissions.{protected_route-IsGranted}
use pack_service.Authorization.Grants.{IsGranted}
use Prim.Native.String.{String}

-- A repository of permissions, and one that fails
abbrev permissions : FindPermission
permissions resource action = ok (some (if str_eq action "write" then "w" else "r"))

abbrev failing : FindPermission
failing resource action = err failure

-- Object ids are texts, and there is one role, which may write.
abbrev packer : Role
packer = record {
  id = 1;
  name = "packer";
  description = "";
  permissions = "w" ∷ [];
  active = true;
  created_at = 0;
  updated_at = 0;
}

abbrev find_role : String → FoundRole
find_role id = if str_eq id "p" then role packer else no_role

abbrev parse_id : String → Option String
parse_id s = some s

-- A member with this role
abbrev packer_claims : ClaimsWithJwt
packer_claims = record member_claims {
  claims = record { user_id = 7; email = "u@x"; name = "U"; roles = "p" ∷ [] };
}

abbrev packers : Jwt
packers = record library {
  parse = λ secret token now.
      if str_eq token "t5"
      then some packer_claims
      else if str_eq token "t6"
      then some member_claims
      else none;
}

abbrev guard : Option AuthorizationConfig
guard = guard_of (some find_role) (some (some permissions)) update_pack_sizes_endpoint

-- The handler answers with the number of tokens in the store.
abbrev handler : Store → Outcome (Store × ℕ)
handler d = returns ([], 204)

answer : String → Outcome ((Store × Option Limiter) × Reply ℕ)
answer header =
    protected_route packers repository config members no_roles plain parse_id (some find_role) guard
      handler header "10.0.0.1" 9 ([], none)

protected_route-test :
    (answer "Bearer t5" ≡ returns (([], none), handled 204))
    × (answer "Bearer t6" ≡ returns (([], none), denied forbidden))
    × (answer "Bearer t7" ≡ returns (([], none), unauthenticated "error.invalid_token"))
    × (answer "t5" ≡ returns (([], none), unauthenticated "error.invalid_token"))
    × (answer "" ≡ returns (([], none), unauthenticated "error.token_required"))
unfolding answer protected_route guard_of limit_user authorize require_authorization user_roles
    collect_permissions granted has_any jwt_auth validate_access_token listed lookup put
protected_route-test = (refl, refl, refl, refl, refl)

-- Where the search for the permission fails at start-up, the route asks for none.
unguarded-test : guard_of (some find_role) (some (some failing)) update_pack_sizes_endpoint ≡ none
unfolding guard_of
unguarded-test = refl

abbrev write_id : String
write_id = "w"

w_given : write_id ≢ ""
w_given e =
    let q : str_eq write_id "" ≡ true = (string_eq.beq_iff write_id "").1 e in absurd (ground arith)

abbrev limiter : Limiter
limiter = new_sharded (pos 100) 60 (pos 16)

protected_route-Ending_example :
    Ending packers repository config members no_roles plain parse_id
      (some find_role)
      guard
      handler
      "Bearer t6"
      "10.0.0.1"
      9
      []
      (some limiter)
protected_route-Ending_example =
    protected_route-Ending packers repository config members no_roles plain parse_id
      (some find_role) guard handler "Bearer t6" "10.0.0.1" 9 [] (some limiter)
      (new_sharded-IsSound (pos 100) 60 (pos 16) (omega arith))

updated : answer "Bearer t5" ≡ returns (([], none), handled 204)
updated = protected_route-test.0

protected_route-IsGranted_example :
    (c : Claims) × (t : String) × (bearer_of "Bearer t5" ≡ bearer t)
    × IsValidToken packers repository config members no_roles plain parse_id
        (some find_role)
        t
        9
        []
        c
    × IsGranted parse_id (some find_role) c.roles write_id
    × (handler (jwt_auth packers repository config members no_roles plain "Bearer t5" 9 []).0
        ≡ returns ([], 204))
unfolding answer
protected_route-IsGranted_example =
    protected_route-IsGranted packers repository config members no_roles plain parse_id find_role
      permissions update_pack_sizes_endpoint "write" write_id handler "Bearer t5" "10.0.0.1" 9 []
      none ([], none) 204 refl refl w_given tt updated
