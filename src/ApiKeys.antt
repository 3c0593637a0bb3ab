-- ===== src/ApiKeys.antt =====
-- `APIKeyAuth` of internal/middleware/auth.go, and `configureAPIMiddleware` of
-- internal/http/router.go for it. A header or a query parameter that is not there is the empty
-- text.
pub mod Accepted
mod Examples
use pack_service.Base.{
  Bool, true, false, ◌&&◌, not, List, [], ◌∷◌, Option, none, some, if◌then◌else◌,
}
use pack_service.Base.Dict.{lookup}
use pack_service.Text.{Text, text_key}
use Prim.Native.String.{String}

pub data Answer : Type 0 where
  passes : Answer
  unauthorized : (key : String) → Answer

-- `validKeys[key]`: a missing key is false.
unfoldable pub is_valid : List (Text × Bool) → Text → Bool
is_valid keys key = elim (lookup key keys) [ none ↦ false | some b ↦ b ]

-- The header X-API-Key, or the query parameter api_key if there is none
abbrev pub key_of : Text → Text → Text
key_of [] query = query
key_of (c ∷ s) query = c ∷ s

unfoldable pub check_key : List (Text × Bool) → Text → Answer
unfolding is_valid
check_key keys [] = unauthorized "error.api_key_required"
check_key keys (c ∷ s) =
    if is_valid keys (c ∷ s) then passes else unauthorized "error.invalid_api_key"

-- `APIKeyAuth`
unfoldable pub api_key_auth : List (Text × Bool) → Text → Text → Answer
unfolding check_key
api_key_auth [] header query = passes
api_key_auth (k ∷ keys) header query = check_key (k ∷ keys) (key_of header query)

-- The part of `configureAPIMiddleware` on keys
unfoldable pub api_middleware :
    (enable_auth has_auth_service : Bool) → List (Text × Bool) → Text → Text → Answer
unfolding api_key_auth
api_middleware enable_auth has_auth_service keys header query =
    if enable_auth && not has_auth_service then api_key_auth keys header query else passes
