-- ===== src/Authorization/Examples.antt =====
-- Runs of the authorization, and its theorem at an input.
use pack_service.Base.{◌≡◌, ◌↔◌, refl, true, false, [], ◌∷◌, Option, none, some, if◌then◌else◌}
use pack_service.Base.Dict.{string_eq, ◌==◌, lookup, put}
use Prim.Native.String.{String}
use pack_service.Authorization.{
  Claims, Role, AuthorizationConfig, claims, absent, FoundRole, no_role, role, passes, forbidden,
  unauthorized, holds_role, has_required_role, user_roles, add_permissions, collect_permissions,
  granted, has_all, has_any, check_permissions, check_roles, require_authorization,
}
use pack_service.Authorization.Decisions.{IsAuthorized, require_authorization-IsAuthorized}

program : Unit {0}
unfolding holds_role has_required_role user_roles add_permissions collect_permissions granted
    has_all has_any check_permissions check_roles require_authorization lookup put
program = tt

-- Every text but the empty one is an id.
abbrev parse : String → Option String
parse s = if s == "" then none else some s

abbrev clerk : Role
clerk = record {
  id = 1;
  name = "clerk";
  description = "";
  permissions = "read" ∷ "write" ∷ [];
  active = true;
  created_at = 0;
  updated_at = 0;
}

abbrev find : String → FoundRole
find s = if s == "r1" then role clerk else no_role

abbrev user : Claims
user = record { user_id = 7; email = "u@x"; name = "U"; roles = "" ∷ "r1" ∷ "r9" ∷ [] }

abbrev writing : AuthorizationConfig
writing = record {
  required_roles = "admin" ∷ "r1" ∷ [];
  required_permissions = "write" ∷ "delete" ∷ [];
  require_all_permissions = false;
}

allowed : require_authorization parse writing (some find) (claims user) ≡ passes
unfolding program
allowed = refl

refused :
    require_authorization parse
      (record writing { require_all_permissions = true })
      (some find)
      (claims user)
    ≡ forbidden
unfolding program
refused = refl

unknown : require_authorization parse writing (some find) absent ≡ unauthorized
unfolding program
unknown = refl

require_authorization-IsAuthorized_example :
    (require_authorization parse writing (some find) (claims user) ≡ passes)
    ↔ ((c : Claims) × (claims user ≡ claims c) × IsAuthorized parse writing (some find) c.roles)
require_authorization-IsAuthorized_example =
    require_authorization-IsAuthorized parse writing (some find) (claims user)
