-- ===== src/Tokens.antt =====
-- internal/service/token_service.go: the tokens of a user, and the tokens of
-- internal/domain/model/user.go. The JWT library and the repository of tokens over MongoDB are
-- parameters: `Jwt` signs claims with a secret and parses a token with a secret at a time, and
-- `TokenRepository` works on a state `D` of the database. An object id is a number, 0 is the zero
-- id. Errors keep their kind and lose their text. Times are nanoseconds; an operation reads the
-- clock once.
pub mod Actions
use pack_service.Base.{
  ℕ, ◌+◌, ◌/◌, ◌≡◌, Bool, true, false, List, [], ◌∷◌, Option, none, some, ◌==◌, if◌then◌else◌,
}
use pack_service.Authorization.{Claims}
use Prim.Native.String.{String}

pub data Error : Type 0 where
  invalid_credentials : Error
  user_exists : Error
  invalid_token : Error
  token_blacklisted : Error
  zero_user_id : Error
  no_user_role : Error
  failure : Error

pub data Result (A : Type 0) : Type 0 where
  err : Error → Result A
  ok : A → Result A

-- A call that may change the database and may fail.
abbrev pub Action : Type 0 → Type 0 → Type 0
Action D A = D → D × Result A

module _ {D : Type 0} where
  abbrev pub pure : {A : Type 0} → A → Action D A
  pure a d = (d, ok a)

  abbrev pub fail : {A : Type 0} → Error → Action D A
  fail e d = (d, err e)

  abbrev pub after : {A B : Type 0} → D × Result A → (A → Action D B) → D × Result B
  after (d, err e) f = (d, err e)
  after (d, ok a) f = f a d

  infixl 5 ◌>>=◌ ◌>>◌
  abbrev pub ◌>>=◌ : {A B : Type 0} → Action D A → (A → Action D B) → Action D B
  (m >>= f) d = after (m d) f

  abbrev pub ◌>>◌ : {A B : Type 0} → Action D A → Action D B → Action D B
  m >> k = m >>= λ _. k

-- `User`
pub record User : Type 0 where
  pub id : ℕ
  pub email : String
  pub username : String
  pub password : String
  pub name : String
  pub roles : List String
  pub active : Bool
  pub created_at : ℕ
  pub updated_at : ℕ

-- `Token`
pub record Token : Type 0 where
  pub id : ℕ
  pub user_id : ℕ
  pub token : String
  pub type : String
  pub expires_at : ℕ
  pub created_at : ℕ

-- `ClaimsWithJWT`: the claims, the expiry (`none` for a nil one), the time of issue and of
-- validity.
pub record ClaimsWithJwt : Type 0 where
  pub claims : Claims
  pub expires_at : Option ℕ
  pub issued_at : ℕ
  pub not_before : ℕ

-- `dto.TokenPair`
pub record TokenPair : Type 0 where
  pub access_token : String
  pub refresh_token : String
  pub expires_in : ℕ

-- The JWT library: `SignedString` with HS256, `ParseWithClaims` with the test of the method, which
-- gives the claims of a valid token, and without it.
pub record Jwt : Type 0 where
  pub sign : String → ClaimsWithJwt → Option String
  pub parse : String → String → ℕ → Option ClaimsWithJwt
  pub parse_any : String → String → ℕ → Option ClaimsWithJwt

-- `TokenRepositoryInterface`
pub record TokenRepository (D : Type 0) : Type 0 where
  pub create : Token → Action D Bool
  pub find_by_token : String → Action D (Option Token)
  pub delete_by_token : String → Action D Bool
  pub delete_by_user_id : ℕ → String → Action D Bool
  pub is_blacklisted : String → Action D Bool

-- `TokenConfig`, and the fields of `TokenServiceImpl` beside the repository
pub record TokenConfig : Type 0 where
  pub secret_key : String
  pub refresh_secret_key : String
  pub access_token_ttl : ℕ
  pub refresh_token_ttl : ℕ

-- The claims of a user for a token that lives for `ttl`.
abbrev pub claims_of : User → ℕ → ℕ → ClaimsWithJwt
claims_of user ttl now = record {
  claims = record { user_id = user.id; email = user.email; name = user.name; roles = user.roles };
  expires_at = some (now + ttl);
  issued_at = now;
  not_before = now;
}

module _ {D : Type 0} (jwt : Jwt) (repo : TokenRepository D) (cfg : TokenConfig) where
  abbrev pub signed : Option String → Action D String
  signed none = fail failure
  signed (some token) = pure token

  -- `generateAccessToken` and `generateRefreshToken`
  abbrev pub generate_access_token : User → ℕ → Action D String
  generate_access_token user now =
      signed (jwt.sign cfg.secret_key (claims_of user cfg.access_token_ttl now))

  abbrev pub generate_refresh_token : User → ℕ → Action D (String × ℕ)
  generate_refresh_token user now = do
    token ← signed (jwt.sign cfg.refresh_secret_key (claims_of user cfg.refresh_token_ttl now))
    pure (token, now + cfg.refresh_token_ttl)

  -- The part of `GenerateTokenPair` after the test of the id
  unfoldable pub issue : User → ℕ → Action D TokenPair
  issue user now = do
    access ← generate_access_token user now
    (refresh, expires_at) ← generate_refresh_token user now
    repo.create (record {
      id = 0;
      user_id = user.id;
      token = refresh;
      type = "refresh";
      expires_at = expires_at;
      created_at = 0;
    })
    pure (record {
      access_token = access;
      refresh_token = refresh;
      expires_in = cfg.access_token_ttl / 1000000000;
    })

  -- `GenerateTokenPair`
  unfoldable pub generate_token_pair : User → ℕ → Action D TokenPair
  unfolding issue
  generate_token_pair user now = if user.id == 0 then fail zero_user_id else issue user now

  abbrev pub claims_in : Option ClaimsWithJwt → Action D Claims
  claims_in none = fail invalid_token
  claims_in (some c) = pure c.claims

  -- `ValidateAccessToken`
  unfoldable pub validate_access_token : String → ℕ → Action D Claims
  validate_access_token token now = do
    blacklisted ← repo.is_blacklisted token
    if blacklisted then fail token_blacklisted else claims_in (jwt.parse cfg.secret_key token now)

  -- `ValidateRefreshToken`
  unfoldable pub validate_refresh_token : String → ℕ → Action D Claims
  validate_refresh_token token now = claims_in (jwt.parse cfg.refresh_secret_key token now)

  abbrev pub expiry : Option ℕ → ℕ → ℕ
  expiry none now = now + cfg.access_token_ttl
  expiry (some t) now = t

  abbrev pub blacklist : Option ClaimsWithJwt → String → ℕ → Action D Bool
  blacklist none token now = fail failure
  blacklist (some c) token now = repo.create (record {
    id = 0;
    user_id = c.claims.user_id;
    token = token;
    type = "blacklist";
    expires_at = expiry c.expires_at now;
    created_at = 0;
  })

  -- `InvalidateAccessToken`
  unfoldable pub invalidate_access_token : String → ℕ → Action D Bool
  invalidate_access_token token now = blacklist (jwt.parse_any cfg.secret_key token now) token now

  -- `InvalidateUserTokens`, `DeleteRefreshToken` and `FindRefreshToken`
  abbrev pub invalidate_user_tokens : ℕ → Action D Bool
  invalidate_user_tokens user_id = repo.delete_by_user_id user_id "refresh"

  abbrev pub delete_refresh_token : String → Action D Bool
  delete_refresh_token token = repo.delete_by_token token

  abbrev pub find_refresh_token : String → Action D (Option Token)
  find_refresh_token token = repo.find_by_token token
