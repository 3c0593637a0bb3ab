-- ===== src/AuthHandler/Logouts.antt =====
-- What keeps a token revoked: the calls of the database, and then the handlers.
use pack_service.Base.{
  ℕ, ◌≡◌, ◌≢◌, Bool, true, false, Option, none, some, ◌==◌, not, ltb, if◌then◌else◌,
}
use pack_service.Base.Dict.{string_eq, ◌==◌ as str_eq}
use pack_service.Authorization.{Role}
use pack_service.Tokens.{
  invalid_credentials, invalid_token, token_blacklisted, zero_user_id, Result, err, ok, Action,
  after, pure, fail, User, Token, ClaimsWithJwt, Jwt, TokenRepository, TokenConfig, signed,
  generate_access_token, generate_refresh_token, issue, generate_token_pair, validate_access_token,
  validate_refresh_token, claims_in, blacklist, invalidate_access_token,
}
use pack_service.Auth.{
  UserRepository, RoleRepository, Crypto, active_user, verify, login, free, existing_role,
  hashed_password, register, usable_token, refresh_token,
}
use Prim.Native.String.{String}

-- An action that keeps a property of the database, whether it fails or not.
abbrev pub Keeps : {D A : Type 0} → (D → Type 0) → Action D A → Type 0
Keeps {D} P m = (d : D) → P d → P (m d).0

module _ {D : Type 0} (P : D → Type 0) where
  pub Keeps-after :
      {A B : Type 0} (r : D × Result A) (f : A → Action D B)
      → P r.0
      → ((a : A) → Keeps P (f a))
      → P (after r f).0
  Keeps-after (d, err e) f h k = h
  Keeps-after (d, ok a) f h k = k a d h

  pub Keeps-if :
      {A : Type 0} (b : Bool) (m n : Action D A)
      → Keeps P m
      → Keeps P n
      → Keeps P (if b then m else n)
  Keeps-if true m n h k = h
  Keeps-if false m n h k = k

-- What is documented of the database, about the tokens that are stored as blacklisted: such a token
-- is found, unless the search fails; and only the deletion of this very token takes it away.
-- `IsRevoked` says of a state that the token is stored there as blacklisted.
pub record RevocationLaws {D : Type 0} (tokens : TokenRepository D) (users : UserRepository D)
    (roles : RoleRepository D) (IsRevoked : String → D → Type 0) : Type 0 where
  pub create_revokes :
      (t : Token) (d : D) (b : Bool)
      → t.type ≡ "blacklist"
      → (tokens.create t d).1 ≡ ok b
      → IsRevoked t.token (tokens.create t d).0
  pub is_found : (t : String) (d : D) → IsRevoked t d → (tokens.is_blacklisted t d).1 ≢ ok false
  pub delete_keeps : (x t : String) → x ≢ t → Keeps (IsRevoked t) (tokens.delete_by_token x)
  pub delete_refresh_keeps :
      (id : ℕ) (t : String) → Keeps (IsRevoked t) (tokens.delete_by_user_id id "refresh")
  pub create_keeps : (x : Token) (t : String) → Keeps (IsRevoked t) (tokens.create x)
  pub find_keeps : (x t : String) → Keeps (IsRevoked t) (tokens.find_by_token x)
  pub check_keeps : (x t : String) → Keeps (IsRevoked t) (tokens.is_blacklisted x)
  pub find_email_keeps : (x t : String) → Keeps (IsRevoked t) (users.find_by_email x)
  pub find_username_keeps : (x t : String) → Keeps (IsRevoked t) (users.find_by_username x)
  pub find_id_keeps : (id : ℕ) (t : String) → Keeps (IsRevoked t) (users.find_by_id id)
  pub create_user_keeps : (u : User) (t : String) → Keeps (IsRevoked t) (users.create u)
  pub find_role_keeps : (x t : String) → Keeps (IsRevoked t) (roles.find_by_name x)

module _ {D : Type 0} (jwt : Jwt) (tokens : TokenRepository D) (cfg : TokenConfig)
    (users : UserRepository D) (roles : RoleRepository D) (crypto : Crypto)
    (IsRevoked : String → D → Type 0) (laws : RevocationLaws tokens users roles IsRevoked)
    (t : String) where
  abbrev P : D → Type 0
  P d = IsRevoked t d

  -- What does not touch the database
  signed-Keeps : (o : Option String) → Keeps P (signed jwt tokens cfg o)
  signed-Keeps none d p = p
  signed-Keeps (some x) d p = p

  claims_in-Keeps : (o : Option ClaimsWithJwt) → Keeps P (claims_in jwt tokens cfg o)
  claims_in-Keeps none d p = p
  claims_in-Keeps (some x) d p = p

  active_user-Keeps : (o : Option User) → Keeps P (active_user jwt tokens cfg users roles crypto o)
  active_user-Keeps none d p = p
  active_user-Keeps (some u) d p =
      Keeps-if P u.active (pure u) (fail invalid_credentials) (λ d p. p) (λ d p. p) d p

  verify-Keeps :
      (password : String) (u : User) → Keeps P (verify jwt tokens cfg users roles crypto password u)
  verify-Keeps password u =
      Keeps-if P (u.id == 0) (fail zero_user_id) _ (λ d p. p)
        (Keeps-if P (crypto.matches u.password password) (pure u) (fail invalid_credentials)
          (λ d p. p) (λ d p. p))

  -- The services, one after the other
  issue-Keeps : (user : User) (now : ℕ) → Keeps P (issue jwt tokens cfg user now)
  unfolding issue
  issue-Keeps user now d p =
      Keeps-after P (generate_access_token jwt tokens cfg user now d) _ (signed-Keeps _ d p)
        λ access d p.
          Keeps-after P (generate_refresh_token jwt tokens cfg user now d) _
            (Keeps-after P (signed jwt tokens cfg _ d) _ (signed-Keeps _ d p) λ x d p. p)
            λ refresh d p.
              Keeps-after P (tokens.create _ d) _ (laws.create_keeps _ t d p) λ b d p. p

  generate-Keeps : (user : User) (now : ℕ) → Keeps P (generate_token_pair jwt tokens cfg user now)
  unfolding generate_token_pair
  generate-Keeps user now =
      Keeps-if P (user.id == 0) (fail zero_user_id) (issue jwt tokens cfg user now) (λ d p. p)
        (issue-Keeps user now)

  pub login-Keeps :
      (email password : String) (now : ℕ)
      → Keeps P (login jwt tokens cfg users roles crypto email password now)
  unfolding login
  login-Keeps email password now d p =
      Keeps-after P (users.find_by_email email d) _ (laws.find_email_keeps email t d p) λ found d p.
        Keeps-after P (active_user jwt tokens cfg users roles crypto found d) _
          (active_user-Keeps found d p)
          λ active d p.
            Keeps-after P (verify jwt tokens cfg users roles crypto password active d) _
              (verify-Keeps password active d p)
              λ user d p.
                Keeps-after P (tokens.delete_by_user_id user.id "refresh" d) _
                  (laws.delete_refresh_keeps user.id t d p)
                  λ b d p.
                    Keeps-after P (generate_token_pair jwt tokens cfg user now d) _
                      (generate-Keeps user now d p) λ pair d p. p

  free-Keeps : (o : Option User) → Keeps P (free jwt tokens cfg users roles crypto o)
  free-Keeps none d p = p
  free-Keeps (some u) d p = p

  existing_role-Keeps :
      (o : Option Role) → Keeps P (existing_role jwt tokens cfg users roles crypto o)
  existing_role-Keeps none d p = p
  existing_role-Keeps (some r) d p = p

  hashed_password-Keeps :
      (o : Option String) → Keeps P (hashed_password jwt tokens cfg users roles crypto o)
  hashed_password-Keeps none d p = p
  hashed_password-Keeps (some h) d p = p

  pub register-Keeps :
      (email username password name : String) (now : ℕ)
      → Keeps P (register jwt tokens cfg users roles crypto email username password name now)
  unfolding register
  register-Keeps email username password name now d p =
      Keeps-after P (users.find_by_email email d) _ (laws.find_email_keeps email t d p) λ one d p.
        Keeps-after P (free jwt tokens cfg users roles crypto one d) _ (free-Keeps one d p) λ b d p.
          Keeps-after P (users.find_by_username username d) _
            (laws.find_username_keeps username t d p)
            λ two d p.
              Keeps-after P (free jwt tokens cfg users roles crypto two d) _ (free-Keeps two d p)
                λ b d p.
                  Keeps-after P (roles.find_by_name "user" d) _ (laws.find_role_keeps "user" t d p)
                    λ found d p.
                      Keeps-after P (existing_role jwt tokens cfg users roles crypto found d) _
                        (existing_role-Keeps found d p)
                        λ role d p.
                          Keeps-after P
                            (hashed_password jwt tokens cfg users roles crypto
                              (crypto.hash password) d)
                            _ (hashed_password-Keeps (crypto.hash password) d p)
                            λ hash d p.
                              Keeps-after P (users.create _ d) _ (laws.create_user_keeps _ t d p)
                                λ user d p.
                                  Keeps-after P (generate_token_pair jwt tokens cfg user now d) _
                                    (generate-Keeps user now d p) λ pair d p. p

  usable_token-Keeps :
      (o : Option Token) (now : ℕ) → Keeps P (usable_token jwt tokens cfg users roles crypto o now)
  usable_token-Keeps none now d p = p
  usable_token-Keeps (some x) now d p =
      Keeps-if P (not (str_eq x.type "refresh")) (fail invalid_token)
        (if ltb x.expires_at now then fail invalid_token else pure x) (λ d p. p)
        (Keeps-if P (ltb x.expires_at now) (fail invalid_token) (pure x) (λ d p. p) (λ d p. p)) d p

  -- A refresh takes away the token that it uses up.
  pub refresh-Keeps :
      (refresh : String) (now : ℕ)
      → refresh ≢ t
      → Keeps P (refresh_token jwt tokens cfg users roles crypto refresh now)
  unfolding refresh_token validate_refresh_token
  refresh-Keeps refresh now other d p =
      Keeps-after P (validate_refresh_token jwt tokens cfg refresh now d) _
        (claims_in-Keeps (jwt.parse cfg.refresh_secret_key refresh now) d p)
        λ claims d p.
          Keeps-after P (tokens.find_by_token refresh d) _ (laws.find_keeps refresh t d p)
            λ stored d p.
              Keeps-after P (usable_token jwt tokens cfg users roles crypto stored now d) _
                (usable_token-Keeps stored now d p)
                λ x d p.
                  Keeps-after P (users.find_by_id claims.user_id d) _
                    (laws.find_id_keeps claims.user_id t d p)
                    λ found d p.
                      Keeps-after P (active_user jwt tokens cfg users roles crypto found d) _
                        (active_user-Keeps found d p)
                        λ user d p.
                          Keeps-after P (tokens.delete_by_token refresh d) _
                            (laws.delete_keeps refresh t other d p)
                            λ b d p. generate-Keeps user now d p

  pub validate-Keeps :
      (token : String) (now : ℕ) → Keeps P (validate_access_token jwt tokens cfg token now)
  unfolding validate_access_token
  validate-Keeps token now d p =
      Keeps-after P (tokens.is_blacklisted token d) _ (laws.check_keeps token t d p) λ b.
        Keeps-if P b (fail token_blacklisted)
          (claims_in jwt tokens cfg (jwt.parse cfg.secret_key token now)) (λ d p. p)
          (claims_in-Keeps (jwt.parse cfg.secret_key token now))

  blacklist-Keeps :
      (c : Option ClaimsWithJwt) (token : String) (now : ℕ)
      → Keeps P (blacklist jwt tokens cfg c token now)
  blacklist-Keeps none token now d p = p
  blacklist-Keeps (some c) token now d p = laws.create_keeps _ t d p

  pub invalidate-Keeps :
      (token : String) (now : ℕ) → Keeps P (invalidate_access_token jwt tokens cfg token now)
  unfolding invalidate_access_token
  invalidate-Keeps token now = blacklist-Keeps (jwt.parse_any cfg.secret_key token now) token now
