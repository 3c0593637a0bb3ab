-- ===== src/Auth.antt =====
-- internal/service/auth.go: login, registration, the refresh of tokens, and logout. The
-- repositories of users and roles over MongoDB, bcrypt and the hexadecimal text of an object id are
-- parameters; `Create` of a user returns the user with the id that the database gives. Log lines
-- are left out.
pub mod Sessions
pub mod Memory
mod Examples
use pack_service.Base.{
  ℕ, ◌≡◌, Bool, true, false, not, List, [], ◌∷◌, Option, none, some, ltb, ◌==◌, if◌then◌else◌, ◌||◌,
}
use pack_service.Base.Dict.{string_eq, ◌==◌ as str_eq}
use pack_service.Authorization.{Claims, Role}
use pack_service.Tokens.{
  Error, invalid_credentials, user_exists, invalid_token, zero_user_id, no_user_role, failure,
  Result, err, ok, Action, pure, fail, ◌>>=◌, ◌>>◌, User, Token, TokenPair, Jwt, TokenRepository,
  TokenConfig, generate_token_pair, validate_access_token, validate_refresh_token,
  invalidate_access_token, invalidate_user_tokens, delete_refresh_token, find_refresh_token,
}
use Prim.Native.String.{String}

pub record UserRepository (D : Type 0) : Type 0 where
  pub find_by_email : String → Action D (Option User)
  pub find_by_username : String → Action D (Option User)
  pub find_by_id : ℕ → Action D (Option User)
  pub create : User → Action D User

pub record RoleRepository (D : Type 0) : Type 0 where
  pub find_by_name : String → Action D (Option Role)

-- `CompareHashAndPassword` and `GenerateFromPassword` of bcrypt, and `Hex` of an object id
pub record Crypto : Type 0 where
  pub matches : String → String → Bool
  pub hash : String → Option String
  pub hex : ℕ → String

module _ {D : Type 0} (jwt : Jwt) (tokens : TokenRepository D) (cfg : TokenConfig)
    (users : UserRepository D) (roles : RoleRepository D) (crypto : Crypto) where
  -- A user that exists and is active, or the error `ErrInvalidCredentials`
  abbrev pub active_user : Option User → Action D User
  active_user none = fail invalid_credentials
  active_user (some user) = if user.active then pure user else fail invalid_credentials

  -- The tests of `Login` on the user that was found
  abbrev pub verify : String → User → Action D User
  verify password user =
      if user.id == 0
      then fail zero_user_id
      else if crypto.matches user.password password
      then pure user
      else fail invalid_credentials

  -- `Login`
  unfoldable pub login : String → String → ℕ → Action D (TokenPair × User)
  login email password now = do
    found ← users.find_by_email email
    active ← active_user found
    user ← verify password active
    invalidate_user_tokens jwt tokens cfg user.id
    pair ← generate_token_pair jwt tokens cfg user now
    pure (pair, user)

  -- The tests of `Register` that the address and the name are free, and that the role is there
  abbrev pub free : Option User → Action D Bool
  free none = pure true
  free (some user) = fail user_exists

  abbrev pub existing_role : Option Role → Action D Role
  existing_role none = fail no_user_role
  existing_role (some role) = pure role

  abbrev pub hashed_password : Option String → Action D String
  hashed_password none = fail failure
  hashed_password (some h) = pure h

  -- `Register`
  unfoldable pub register : String → String → String → String → ℕ → Action D (TokenPair × User)
  register email username password name now = do
    by_email ← users.find_by_email email
    free by_email
    by_username ← users.find_by_username username
    free by_username
    found ← roles.find_by_name "user"
    role ← existing_role found
    hashed ← hashed_password (crypto.hash password)
    user ← users.create (record {
      id = 0;
      email = email;
      username = username;
      password = hashed;
      name = name;
      roles = crypto.hex role.id ∷ [];
      active = true;
      created_at = 0;
      updated_at = 0;
    })
    pair ← generate_token_pair jwt tokens cfg user now
    pure (pair, user)

  -- The tests of `RefreshToken` on the stored token
  abbrev pub usable_token : Option Token → ℕ → Action D Token
  usable_token none now = fail invalid_token
  usable_token (some t) now =
      if not (str_eq t.type "refresh")
      then fail invalid_token
      else if ltb t.expires_at now
      then fail invalid_token
      else pure t

  -- `RefreshToken`
  unfoldable pub refresh_token : String → ℕ → Action D TokenPair
  refresh_token refresh now = do
    claims ← validate_refresh_token jwt tokens cfg refresh now
    stored ← find_refresh_token jwt tokens cfg refresh
    usable_token stored now
    found ← users.find_by_id claims.user_id
    user ← active_user found
    delete_refresh_token jwt tokens cfg refresh
    generate_token_pair jwt tokens cfg user now

  -- `ValidateToken`, `InvalidateToken` and `InvalidateUserTokens`
  abbrev pub validate_token : String → ℕ → Action D Claims
  validate_token token now = validate_access_token jwt tokens cfg token now

  abbrev pub invalidate_token : String → ℕ → Action D Bool
  invalidate_token token now = invalidate_access_token jwt tokens cfg token now

  abbrev pub invalidate_tokens_of : ℕ → Action D Bool
  invalidate_tokens_of user_id = invalidate_user_tokens jwt tokens cfg user_id

  -- A step of `Logout`: the text is empty, or the action runs and its error is kept.
  abbrev pub logout_step : String → Action D Bool → D × List Error → D × List Error
  logout_step text m (d, errs) =
      if str_eq text ""
      then (d, errs)
      else (let r = m d in elim r.1 [ err e ↦ (r.0, e ∷ errs) | ok _ ↦ (r.0, errs) ])

  -- `Logout`: both steps run, and an error of one of them is returned at the end.
  unfoldable pub logout : String → String → ℕ → D → D × Result Bool
  logout access refresh now d =
      let one = logout_step access (invalidate_access_token jwt tokens cfg access now) (d, []) in
      let two = logout_step refresh (delete_refresh_token jwt tokens cfg refresh) one in
      elim two.1 [ [] ↦ (two.0, ok true) | e ∷ _ ↦ (two.0, err e) ]
