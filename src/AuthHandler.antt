-- ===== src/AuthHandler.antt =====
-- internal/http/auth_handler.go: the endpoints that log in, register, refresh and log out, with the
-- checks of internal/domain/dto/auth.go, and `JWTAuth` of internal/middleware/jwt.go.
-- A handler gives the state of the database and its call of the response builder. The JSON binding
-- with its checks is a parameter: `none` where it fails. Audit logs, and what is stored
-- in the context for them, are left out. A header that is not there is the empty text.
pub mod Logins
pub mod Logouts
pub mod Revoked
pub mod Visits
mod Examples
use Prim.Native.Char.{code}
use Prim.Native.String.{String}
use pack_service.Base.{
  ℕ, ◌+◌, Bool, true, false, List, [], ◌∷◌, Option, none, some, ltb, ◌==◌, if◌then◌else◌,
}
use pack_service.Base.Dict.{string_eq, ◌==◌ as str_eq}
use pack_service.Authorization.{Claims}
use pack_service.Tokens.{
  Error, invalid_credentials, user_exists, invalid_token, Result, err, ok, User, TokenPair, Jwt,
  TokenRepository, TokenConfig,
}
use pack_service.Auth.{
  UserRepository, RoleRepository, Crypto, login, register, refresh_token, logout, validate_token,
}
use pack_service.Replies.{Call, success_of, error_of}

-- `LoginRequest` and `RegisterRequest`
pub record LoginRequest : Type 0 where
  pub email : String
  pub password : String

pub record RegisterRequest : Type 0 where
  pub email : String
  pub username : String
  pub password : String
  pub name : String

-- `ValidationError`
pub record ValidationError : Type 0 where
  pub field : String
  pub message : String

-- The bytes of a character in UTF-8, and `len` of a text
abbrev pub bytes_of : ℕ → ℕ
bytes_of c = if ltb c 0x80 then 1 else if ltb c 0x800 then 2 else if ltb c 0x10000 then 3 else 4

abbrev pub len : String → ℕ
len String.[] = 0
len (String.◌∷◌ c s) = bytes_of (code c) + len s

abbrev pub invalid : String → String → Option ValidationError
invalid field message = some (record { field = field; message = message })

-- `Validate` of both requests: `none` is no error.
unfoldable pub validate_login : LoginRequest → Option ValidationError
validate_login r =
    if str_eq r.email ""
    then invalid "email" "email is required"
    else if ltb (len r.password) 6
    then invalid "password" "password must be at least 6 characters"
    else none

unfoldable pub validate_register : RegisterRequest → Option ValidationError
validate_register r =
    if str_eq r.email ""
    then invalid "email" "email is required"
    else if str_eq r.username ""
    then invalid "username" "username is required"
    else if ltb (len r.username) 3
    then invalid "username" "username must be at least 3 characters"
    else if ltb 30 (len r.username)
    then invalid "username" "username must be at most 30 characters"
    else if ltb (len r.password) 6
    then invalid "password" "password must be at least 6 characters"
    else none

-- `LoginResponse`, with the fields of its `UserResponse`, and the message of a logout
pub data Body : Type 0 where
  login_response : (token refresh_token email name : String) → Body
  logged_out : Body

-- `strings.HasPrefix` and `strings.TrimPrefix`: what follows the prefix, where it is there.
unfoldable pub after_prefix : String → String → Option String
after_prefix String.[] s = some s
after_prefix (String.◌∷◌ p ps) String.[] = none
after_prefix (String.◌∷◌ p ps) (String.◌∷◌ c s) =
    let rest = after_prefix ps s in if code p == code c then rest else none

-- The token in the header Authorization
pub data Bearer : Type 0 where
  no_header : Bearer
  no_prefix : Bearer
  no_token : Bearer
  bearer : String → Bearer

unfoldable pub bearer_of : String → Bearer
unfolding after_prefix
bearer_of header = if str_eq header "" then no_header else elim (after_prefix "Bearer " header) [
  | none ↦ no_prefix
  | some token ↦ if str_eq token "" then no_token else bearer token
]

-- What `JWTAuth` does with a request: it answers 401 with the message of a key, or passes the
-- claims on.
pub data Passage : Type 0 where
  refused : (key : String) → Passage
  admitted : Claims → Passage

module _ {D : Type 0} (jwt : Jwt) (tokens : TokenRepository D) (cfg : TokenConfig)
    (users : UserRepository D) (roles : RoleRepository D) (crypto : Crypto) where
  abbrev pub passage : D × Result Claims → D × Passage
  passage (d, err e) = (d, refused "error.invalid_token")
  passage (d, ok claims) = (d, admitted claims)

  -- `JWTAuth`
  unfoldable pub jwt_auth : String → ℕ → D → D × Passage
  unfolding bearer_of
  jwt_auth header now d = elim (bearer_of header) [
    | no_header ↦ (d, refused "error.token_required")
    | no_prefix ↦ (d, refused "error.invalid_token")
    | no_token ↦ (d, refused "error.token_required")
    | bearer token ↦ passage (validate_token jwt tokens cfg users roles crypto token now d)
  ]

  abbrev pub response : TokenPair → User → Body
  response pair user = login_response pair.access_token pair.refresh_token user.email user.name

  -- A service was called, and its result is answered.
  abbrev pub answered : {A : Type 0} → (Result A → Call Body) → D × Result A → D × Call Body
  answered answer r = (r.0, answer r.1)

  -- The answers to the results of the services
  unfoldable pub answer_login : Result (TokenPair × User) → Call Body
  answer_login (err invalid_credentials) = error_of 401 "unauthorized"
  answer_login (err _) = error_of 500 "error.internal_error"
  answer_login (ok (pair, user)) = success_of 200 (response pair user)

  unfoldable pub answer_register : Result (TokenPair × User) → Call Body
  answer_register (err user_exists) = error_of 409 "conflict"
  answer_register (err _) = error_of 500 "error.internal_error"
  answer_register (ok (pair, user)) = success_of 201 (response pair user)

  unfoldable pub answer_refresh : Result TokenPair → Call Body
  answer_refresh (err invalid_token) = error_of 401 "unauthorized"
  answer_refresh (err _) = error_of 500 "error.internal_error"
  answer_refresh (ok pair) =
      success_of 200 (login_response pair.access_token pair.refresh_token "" "")

  unfoldable pub answer_logout : Result Bool → Call Body
  answer_logout (err e) = error_of 500 "error.internal_error"
  answer_logout (ok b) = success_of 200 logged_out

  -- `Login`
  unfoldable pub login_handler : Option LoginRequest → ℕ → D → D × Call Body
  unfolding validate_login answer_login
  login_handler none now d = (d, error_of 400 "error.invalid_request_body")
  login_handler (some r) now d = elim (validate_login r) [
    | some e ↦ (d, error_of 400 "invalid_request")
    | none ↦
        answered answer_login (login jwt tokens cfg users roles crypto r.email r.password now d)
  ]

  -- `Register`
  unfoldable pub register_handler : Option RegisterRequest → ℕ → D → D × Call Body
  unfolding validate_register answer_register
  register_handler none now d = (d, error_of 400 "error.invalid_request_body")
  register_handler (some r) now d = elim (validate_register r) [
    | some e ↦ (d, error_of 400 "invalid_request")
    | none ↦
        answered answer_register
          (register jwt tokens cfg users roles crypto r.email r.username r.password r.name now d)
  ]

  -- `RefreshToken`, of the header X-Refresh-Token
  unfoldable pub refresh_handler : String → ℕ → D → D × Call Body
  unfolding answer_refresh
  refresh_handler refresh now d =
      if str_eq refresh ""
      then (d, error_of 400 "invalid_request")
      else answered answer_refresh (refresh_token jwt tokens cfg users roles crypto refresh now d)

  abbrev pub logout_with : String → String → ℕ → D → D × Call Body
  logout_with access refresh now d =
      if str_eq refresh ""
      then (d, error_of 400 "invalid_request")
      else answered answer_logout (logout jwt tokens cfg users roles crypto access refresh now d)

  -- `Logout`, of the headers Authorization and X-Refresh-Token
  unfoldable pub logout_handler : String → String → ℕ → D → D × Call Body
  unfolding bearer_of answer_logout
  logout_handler header refresh now d = elim (bearer_of header) [
    | no_header ↦ (d, error_of 401 "unauthorized")
    | no_prefix ↦ (d, error_of 401 "unauthorized")
    | no_token ↦ (d, error_of 401 "unauthorized")
    | bearer access ↦ logout_with access refresh now d
  ]
