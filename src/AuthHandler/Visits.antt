-- ===== src/AuthHandler/Visits.antt =====
-- A token that was logged out is refused, whatever requests come afterwards.
use pack_service.Base.{
  ℕ, ◌≡◌, ◌≢◌, refl, sym, ap, subst, ◌∙◌, inl, inr, Bool, true, false, List, [], ◌∷◌, Option, none,
  some, arith, if◌then◌else◌, Bool-cases, All,
}
use pack_service.Authorization.{Claims}
use pack_service.Base.Dict.{string_eq, ◌==◌ as str_eq}
use pack_service.Tokens.{
  Error, Result, err, ok, Jwt, TokenRepository, TokenConfig, validate_access_token,
}
use pack_service.Auth.{UserRepository, RoleRepository, Crypto, logout}
use pack_service.AuthHandler.{
  LoginRequest, RegisterRequest, ValidationError, validate_login, validate_register, Body,
  logged_out, Bearer, no_header, no_prefix, no_token, bearer, bearer_of, refused, passage, jwt_auth,
  answer_logout, login_handler, register_handler, refresh_handler, logout_with, logout_handler,
}
use pack_service.AuthHandler.Revoked.{bearer_of-ne, logout-Keeps, logout-IsRevoked, refused_later}
use pack_service.AuthHandler.Logouts.{
  RevocationLaws, login-Keeps, register-Keeps, refresh-Keeps, validate-Keeps,
}
use pack_service.Replies.{Call, success_of, error_of}
use Prim.Native.String.{String}

-- A request to one of the endpoints, or through `JWTAuth`
pub data Visit : Type 0 where
  login_of : Option LoginRequest → Visit
  register_of : Option RegisterRequest → Visit
  refresh_of : (refresh : String) → Visit
  logout_of : (header refresh : String) → Visit
  check_of : (header : String) → Visit

-- A request that does not name the token as its refresh token
abbrev pub Spares : String → Visit × ℕ → Type 0
Spares t (refresh_of refresh, now) = refresh ≢ t
Spares t (logout_of header refresh, now) = refresh ≢ t
Spares t _ = Unit

module _ {D : Type 0} (jwt : Jwt) (tokens : TokenRepository D) (cfg : TokenConfig)
    (users : UserRepository D) (roles : RoleRepository D) (crypto : Crypto) where
  -- The database after a request, and after several
  unfoldable pub visit : Visit × ℕ → D → D
  visit (login_of r, now) d = (login_handler jwt tokens cfg users roles crypto r now d).0
  visit (register_of r, now) d = (register_handler jwt tokens cfg users roles crypto r now d).0
  visit (refresh_of x, now) d = (refresh_handler jwt tokens cfg users roles crypto x now d).0
  visit (logout_of h x, now) d = (logout_handler jwt tokens cfg users roles crypto h x now d).0
  visit (check_of h, now) d = (jwt_auth jwt tokens cfg users roles crypto h now d).0

  unfoldable pub visits : List (Visit × ℕ) → D → D
  unfolding visit
  visits [] d = d
  visits (v ∷ vs) d = visits vs (visit v d)

  module _ (IsRevoked : String → D → Type 0) (laws : RevocationLaws tokens users roles IsRevoked)
      (t : String) where
    abbrev P : D → Type 0
    P d = IsRevoked t d

    valid-Keeps :
        (o : Option ValidationError) (x y : D × Call Body)
        → P x.0
        → P y.0
        → P (let r : D × Call Body = elim o [ some e ↦ x | none ↦ y ] in r).0
    valid-Keeps none x y h k = k
    valid-Keeps (some e) x y h k = h

    given-Keeps : (b : Bool) (x y : D × Call Body) → P x.0 → P y.0 → P (if b then x else y).0
    given-Keeps true x y h k = h
    given-Keeps false x y h k = k

    passage-Keeps :
        (r : D × Result Claims) → P r.0 → P (passage jwt tokens cfg users roles crypto r).0
    passage-Keeps (d, err e) h = h
    passage-Keeps (d, ok c) h = h

    Bearer-Keeps :
        {A : Type 0} (o : Bearer) (x y z : D × A) (f : String → D × A)
        → P x.0
        → P y.0
        → P z.0
        → ((token : String) → P (f token).0)
        → P
            (let r : D × A = elim o [
              | no_header ↦ x
              | no_prefix ↦ y
              | no_token ↦ z
              | bearer token ↦ f token
            ] in
              r).0
    Bearer-Keeps no_header x y z f h k l m = h
    Bearer-Keeps no_prefix x y z f h k l m = k
    Bearer-Keeps no_token x y z f h k l m = l
    Bearer-Keeps (bearer token) x y z f h k l m = m token

    visit-Keeps : (v : Visit × ℕ) → Spares t v → (d : D) → P d → P (visit v d)
    unfolding visit login_handler register_handler refresh_handler logout_handler jwt_auth
    visit-Keeps (login_of none, now) h d p = p
    visit-Keeps (login_of (some r), now) h d p =
        valid-Keeps (validate_login r) _ _ p (
          login-Keeps jwt tokens cfg users roles crypto IsRevoked laws t r.email r.password now d p)
    visit-Keeps (register_of none, now) h d p = p
    visit-Keeps (register_of (some r), now) h d p = valid-Keeps (validate_register r) _ _ p (
        register-Keeps jwt tokens cfg users roles crypto IsRevoked laws t r.email r.username
          r.password r.name now d p)
    visit-Keeps (refresh_of x, now) h d p =
        given-Keeps (str_eq x "") _ _ p
          (refresh-Keeps jwt tokens cfg users roles crypto IsRevoked laws t x now h d p)
    visit-Keeps (logout_of header x, now) h d p =
        Bearer-Keeps (bearer_of header) _ _ _
          (λ access. logout_with jwt tokens cfg users roles crypto access x now d) p p p
          λ access.
            given-Keeps (str_eq x "") _ _ p
              (logout-Keeps jwt tokens cfg users roles crypto IsRevoked laws t access x now d h p)
    visit-Keeps (check_of header, now) h d p =
        Bearer-Keeps (bearer_of header) _ _ _
          (λ token.
            passage jwt tokens cfg users roles crypto
              (validate_access_token jwt tokens cfg token now d))
          p p p
          λ token.
            passage-Keeps _
              (validate-Keeps jwt tokens cfg users roles crypto IsRevoked laws t token now d p)

    visits-Keeps : (vs : List (Visit × ℕ)) → All (Spares t) vs → (d : D) → P d → P (visits vs d)
    unfolding visits
    visits-Keeps [] h d p = p
    visits-Keeps (v ∷ vs) h d p = visits-Keeps vs h.1 (visit v d) (visit-Keeps v h.0 d p)

    jwt_auth-bearer :
        (header : String) (now : ℕ) (d : D)
        → bearer_of header ≡ bearer t
        → jwt_auth jwt tokens cfg users roles crypto header now d
          ≡ passage jwt tokens cfg users roles crypto (validate_access_token jwt tokens cfg t now d)
    unfolding jwt_auth
    jwt_auth-bearer header now d e = rw (e, jwt_auth) refl

    logout_handler-bearer :
        (header refresh : String) (now : ℕ) (d : D)
        → bearer_of header ≡ bearer t
        → logout_handler jwt tokens cfg users roles crypto header refresh now d
          ≡ logout_with jwt tokens cfg users roles crypto t refresh now d
    unfolding logout_handler
    logout_handler-bearer header refresh now d e = rw (e, logout_handler) refl

    passage-refused :
        (r : D × Result Claims) (e : Error)
        → r.1 ≡ err e
        → (passage jwt tokens cfg users roles crypto r).1 ≡ refused "error.invalid_token"
    passage-refused (d, err e') e h = refl
    passage-refused (d, ok c) e h = absurd (ground arith)

    answer_logout-ok :
        (r : Result Bool)
        → answer_logout jwt tokens cfg users roles crypto r ≡ success_of 200 logged_out
        → (b : Bool) × (r ≡ ok b)
    unfolding answer_logout
    answer_logout-ok (err e) h = absurd (ground arith)
    answer_logout-ok (ok b) h = (b, refl)

    -- A logout that is answered with success has revoked its access token.
    logout_with-IsRevoked :
        (refresh : String) (now : ℕ) (d : D)
        → str_eq t "" ≡ false
        → refresh ≢ t
        → (logout_with jwt tokens cfg users roles crypto t refresh now d).1
          ≡ success_of 200 logged_out
        → P (logout_with jwt tokens cfg users roles crypto t refresh now d).0
    logout_with-IsRevoked refresh now d given other h = elim (Bool-cases (str_eq refresh "")) [
      | inl empty ↦
          let q : error_of 400 "invalid_request" ≡ success_of 200 logged_out = rw empty at h in
          absurd (ground arith)
      | inr named ↦
          let (b, done) =
            answer_logout-ok (logout jwt tokens cfg users roles crypto t refresh now d).1
              (rw named at h) in
          rw named (
            logout-IsRevoked jwt tokens cfg users roles crypto IsRevoked laws t refresh now d b
              given other done)
    ]

    -- For a database that obeys `RevocationLaws`: if the endpoint Logout answers 200 to a request
    -- with the token `t` in its header Authorization, and another text in X-Refresh-Token, then
    -- after any requests to log in, register, refresh and log out, and any checks of headers, none
    -- of which names `t` as its refresh token, `JWTAuth` refuses a header with the token `t`, at
    -- any time.
    pub logout_handler-jwt_auth :
        (header refresh : String) (now later : ℕ) (d : D) (vs : List (Visit × ℕ))
        → bearer_of header ≡ bearer t
        → refresh ≢ t
        → (logout_handler jwt tokens cfg users roles crypto header refresh now d).1
          ≡ success_of 200 logged_out
        → All (Spares t) vs
        → (jwt_auth jwt tokens cfg users roles crypto header later
            (visits vs (logout_handler jwt tokens cfg users roles crypto header refresh now d).0)).1
          ≡ refused "error.invalid_token"
    logout_handler-jwt_auth header refresh now later d vs token other h spare =
        let start = logout_handler-bearer header refresh now d token in
        let revoked =
          logout_with-IsRevoked refresh now d (bearer_of-ne header t token) other
            (ap (λ r. r.1) (sym start) ∙ h) in
        let after =
          visits vs (logout_handler jwt tokens cfg users roles crypto header refresh now d).0 in
        let kept : P after = visits-Keeps vs spare _ (subst (λ r. P r.0) (sym start) revoked) in
        let (e, failed) =
          refused_later jwt tokens cfg users roles crypto IsRevoked laws t later after kept in
        ap (λ r. r.1) (jwt_auth-bearer header later after token)
        ∙ passage-refused (validate_access_token jwt tokens cfg t later after) e failed
