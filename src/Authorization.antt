-- ===== src/Authorization.antt =====
-- internal/middleware/authorization.go: whether a request may pass, by the roles in its token and
-- the permissions of these roles (internal/domain/model/user.go). An object id is a number of 12
-- bytes. The parser of object ids and the role service over the database are parameters. Log lines,
-- the locale and the bodies of the responses are left out.
pub mod Grants
pub mod Decisions
mod Examples
use pack_service.Base.{
  ℕ, ◌≡◌, Bool, true, false, ◌||◌, not, List, [], ◌∷◌, Option, none, some, if◌then◌else◌,
}
use pack_service.Base.Dict.{Eq, string_eq, ◌==◌, lookup, put}
use Prim.Native.String.{String}

-- `Claims` of internal/domain/dto/auth.go
pub record Claims : Type 0 where
  pub user_id : ℕ
  pub email : String
  pub name : String
  pub roles : List String

-- `Role`
pub record Role : Type 0 where
  pub id : ℕ
  pub name : String
  pub description : String
  pub permissions : List String
  pub active : Bool
  pub created_at : ℕ
  pub updated_at : ℕ

-- `AuthorizationConfig`
pub record AuthorizationConfig : Type 0 where
  pub required_roles : List String
  pub required_permissions : List String
  pub require_all_permissions : Bool

-- What stands under `user_claims` in the context of the request.
pub data ContextValue : Type 0 where
  absent : ContextValue
  another : ContextValue
  claims : Claims → ContextValue

-- `FindByID` of the role service: an error, no role, or a role.
pub data FoundRole : Type 0 where
  error : FoundRole
  no_role : FoundRole
  role : Role → FoundRole

pub data Decision : Type 0 where
  unauthorized : Decision
  forbidden : Decision
  passes : Decision

-- The inner loop over the roles of the user.
unfoldable pub holds_role : String → List String → Bool
holds_role required [] = false
holds_role required (r ∷ roles) = if r == required then true else holds_role required roles

-- The loop over the required roles, which ends at the first that the user has.
unfoldable pub has_required_role : List String → List String → Bool
unfolding holds_role
has_required_role [] roles = false
has_required_role (required ∷ rest) roles =
    let later = has_required_role rest roles in if holds_role required roles then true else later

module _ {ObjectId : Type 0} (object_id_from_hex : String → Option ObjectId) where
  abbrev pub add_role : FoundRole → List Role → List Role
  add_role error roles = roles
  add_role no_role roles = roles
  add_role (role r) roles = r ∷ roles

  -- The loop that fetches the roles of the user. An id that does not parse, and a role that is not
  -- found, are passed over. `none` is a nil role service.
  unfoldable pub user_roles : Option (ObjectId → FoundRole) → List String → List Role
  user_roles none ids = []
  user_roles (some find) [] = []
  user_roles (some find) (s ∷ ids) =
      let rest = user_roles (some find) ids in
      elim (object_id_from_hex s) [ none ↦ rest | some id ↦ add_role (find id) rest ]

-- `userPermissionIDs[permID] = true`, for the permissions of one role and then for all roles
unfoldable pub add_permissions : List String → List (String × Bool) → List (String × Bool)
add_permissions [] ids = ids
add_permissions (p ∷ ps) ids = add_permissions ps (put p true ids)

unfoldable pub collect_permissions : List Role → List (String × Bool) → List (String × Bool)
unfolding add_permissions
collect_permissions [] ids = ids
collect_permissions (r ∷ roles) ids = collect_permissions roles (add_permissions r.permissions ids)

-- `userPermissionIDs[requiredPerm]`: a missing key is false.
unfoldable pub granted : List (String × Bool) → String → Bool
granted ids p = elim (lookup p ids) [ none ↦ false | some b ↦ b ]

-- The loops over the required permissions, for all of them and for one of them.
unfoldable pub has_all : List (String × Bool) → List String → Bool
has_all ids [] = true
has_all ids (p ∷ ps) = let rest = has_all ids ps in if granted ids p then rest else false

unfoldable pub has_any : List (String × Bool) → List String → Bool
has_any ids [] = false
has_any ids (p ∷ ps) = let rest = has_any ids ps in if granted ids p then true else rest

module _ {ObjectId : Type 0} (object_id_from_hex : String → Option ObjectId) where
  pub check_permissions :
      AuthorizationConfig → Option (ObjectId → FoundRole) → List String → List String → Decision
  check_permissions cfg service roles [] = passes
  check_permissions cfg service roles (p ∷ ps) =
      let ids = collect_permissions (user_roles object_id_from_hex service roles) [] in
      let enough =
        if cfg.require_all_permissions then has_all ids (p ∷ ps) else has_any ids (p ∷ ps) in
      if enough then passes else forbidden

  pub check_roles :
      AuthorizationConfig → Option (ObjectId → FoundRole) → List String → List String → Decision
  check_roles cfg service roles [] = check_permissions cfg service roles cfg.required_permissions
  check_roles cfg service roles (r ∷ rs) =
      if has_required_role (r ∷ rs) roles
      then check_permissions cfg service roles cfg.required_permissions
      else forbidden

  -- `RequireAuthorization`
  unfoldable pub require_authorization :
      AuthorizationConfig → Option (ObjectId → FoundRole) → ContextValue → Decision
  unfolding check_roles check_permissions
  require_authorization cfg service absent = unauthorized
  require_authorization cfg service another = unauthorized
  require_authorization cfg service (claims c) = check_roles cfg service c.roles cfg.required_roles
