-- ===== src/Routes/Protected.antt =====
-- When the handler of a protected route runs, and what is answered otherwise.
use pack_service.Base.{
  ℕ, ◌≡◌, ◌≢◌, refl, sym, subst, ◌∙◌, ◌↔◌, Bool, true, false, Option, none, some, arith,
  if◌then◌else◌, Outcome, returns, panics, out_of_fuel, ◌>>=◌, Returns, returned, Returns->>=,
}
use pack_service.Base.Dict.{string_eq}
use pack_service.Authorization.{
  Claims, AuthorizationConfig, claims, FoundRole, Decision, unauthorized, forbidden, passes,
}
use pack_service.Authorization.Decisions.{IsAuthorized, require_authorization-IsAuthorized}
use pack_service.Tokens.{
  token_blacklisted, Result, err, ok, Action, fail, ClaimsWithJwt, Jwt, TokenRepository,
  TokenConfig, claims_in, validate_access_token,
}
use pack_service.Tokens.Actions.{ok-after}
use pack_service.Auth.{UserRepository, RoleRepository, Crypto}
use pack_service.AuthHandler.{
  Bearer, no_header, no_prefix, no_token, bearer, bearer_of, Passage, refused, admitted, passage,
  jwt_auth,
}
use pack_service.RateLimit.{Limiter, Verdict}
use pack_service.RateLimit.Visits.{IsSound, user_rate_limit-IsSound}
use pack_service.Routes.{
  Reply, unauthenticated, rate_limited, denied, handled, limit_user, authorize, protected_route,
}
use Prim.Native.String.{String}

abbrev pub IsSoundIfAny : Option Limiter → Type 0
IsSoundIfAny none = Unit
IsSoundIfAny (some rl) = IsSound rl

Returns-value :
    {A : Type 0} {P : A → Type 0} (m : Outcome A) → Returns P m → (a : A) × (m ≡ returns a) × P a
Returns-value (returns a) (returned p) = (a, refl, p)
Returns-value panics h = elim h [ ]
Returns-value out_of_fuel h = elim h [ ]

module _ {D ObjectId : Type 0} (jwt : Jwt) (tokens : TokenRepository D) (cfg : TokenConfig)
    (users : UserRepository D) (roles : RoleRepository D) (crypto : Crypto)
    (object_id_from_hex : String → Option ObjectId) (service : Option (ObjectId → FoundRole)) where
  -- A token that was signed with the secret and has not expired, and that nobody has revoked
  abbrev pub IsValidToken : String → ℕ → D → Claims → Type 0
  IsValidToken t now d c =
      ((tokens.is_blacklisted t d).1 ≡ ok false)
      × ((w : ClaimsWithJwt) × (jwt.parse cfg.secret_key t now ≡ some w) × (w.claims ≡ c))

  claims_in-ok :
      (o : Option ClaimsWithJwt) (d : D) (c : Claims)
      → (claims_in jwt tokens cfg o d).1 ≡ ok c
      → (w : ClaimsWithJwt) × (o ≡ some w) × (w.claims ≡ c)
  claims_in-ok none d c h = absurd (ground arith)
  claims_in-ok (some w) d c h = (w, refl, ground arith)

  validate-IsValidToken :
      (t : String) (now : ℕ) (d : D) (c : Claims)
      → (validate_access_token jwt tokens cfg t now d).1 ≡ ok c
      → IsValidToken t now d c
  unfolding validate_access_token
  validate-IsValidToken t now d c h =
      let (b, found, _, rest) = ok-after (tokens.is_blacklisted t d) _ c h in
      by_flag b (tokens.is_blacklisted t d).0 found rest
    where
      by_flag :
          (b : Bool) (d' : D)
          → (tokens.is_blacklisted t d).1 ≡ ok b
          → (let m : Action D Claims =
                if b
                then fail token_blacklisted
                else claims_in jwt tokens cfg (jwt.parse cfg.secret_key t now) in
              m d').1
            ≡ ok c
          → IsValidToken t now d c
      by_flag true d' found rest = absurd (ground arith)
      by_flag false d' found rest = (found, claims_in-ok (jwt.parse cfg.secret_key t now) d' c rest)

  passage-admitted :
      (r : D × Result Claims) (c : Claims)
      → (passage jwt tokens cfg users roles crypto r).1 ≡ admitted c
      → r.1 ≡ ok c
  passage-admitted (d, err e) c h = absurd (ground arith)
  passage-admitted (d, ok x) c h = ground arith

  by_bearer : String → ℕ → D → Bearer → D × Passage
  by_bearer header now d b = elim b [
    | no_header ↦ (d, refused "error.token_required")
    | no_prefix ↦ (d, refused "error.invalid_token")
    | no_token ↦ (d, refused "error.token_required")
    | bearer token ↦
        passage jwt tokens cfg users roles crypto (validate_access_token jwt tokens cfg token now d)
  ]

  by_bearer-admitted :
      (header : String) (now : ℕ) (d : D) (c : Claims) (b : Bearer)
      → (by_bearer header now d b).1 ≡ admitted c
      → (t : String) × (b ≡ bearer t) × IsValidToken t now d c
  unfolding by_bearer
  by_bearer-admitted header now d c no_header h = absurd (ground arith)
  by_bearer-admitted header now d c no_prefix h = absurd (ground arith)
  by_bearer-admitted header now d c no_token h = absurd (ground arith)
  by_bearer-admitted header now d c (bearer t) h = (
    t,
    refl,
    validate-IsValidToken t now d c
        (passage-admitted (validate_access_token jwt tokens cfg t now d) c h),
  )

  jwt_auth-IsValidToken :
      (header : String) (now : ℕ) (d : D) (c : Claims)
      → (jwt_auth jwt tokens cfg users roles crypto header now d).1 ≡ admitted c
      → (t : String) × (bearer_of header ≡ bearer t) × IsValidToken t now d c
  unfolding jwt_auth by_bearer
  jwt_auth-IsValidToken header now d c h = by_bearer-admitted header now d c (bearer_of header) h

  limit_user-value :
      (rl : Option Limiter) (c : Claims) (ip : String) (now : ℕ)
      → IsSoundIfAny rl
      → (r : Option Limiter × Verdict) × (limit_user jwt tokens cfg users roles crypto
            object_id_from_hex service rl c ip now
          ≡ returns r)
        × IsSoundIfAny r.0
  unfolding limit_user
  limit_user-value none c ip now sound = ((none, Verdict.passes), refl, tt)
  limit_user-value (some rl) c ip now sound = Returns-value _ (
      Returns->>= (user_rate_limit-IsSound rl (some (crypto.hex c.user_id)) ip now sound)
        λ r s. returned s)

  -- What a route asks of the roles in a token
  abbrev pub IsAllowed : Option AuthorizationConfig → Claims → Type 0
  IsAllowed none c = Unit
  IsAllowed (some config) c = IsAuthorized object_id_from_hex config service c.roles

  authorize-IsAllowed :
      (guard : Option AuthorizationConfig) (c : Claims)
      → (authorize jwt tokens cfg users roles crypto object_id_from_hex service guard c ≡ passes)
        ↔ IsAllowed guard c
  unfolding authorize
  authorize-IsAllowed none c = ((λ e. tt), λ a. refl)
  authorize-IsAllowed (some config) c =
      let both = require_authorization-IsAuthorized object_id_from_hex config service (claims c) in
      (
        (λ e.
            let (x, same, a) = both.0 e in
            let eq : x ≡ c = ground arith in
            subst (λ z. IsAuthorized object_id_from_hex config service z.roles) eq a),
        λ a. both.1 (c, refl, a),
      )

  -- The four ways in which a request to a protected route ends
  module _ {A : Type 0} (guard : Option AuthorizationConfig) (handler : D → Outcome (D × A))
      (header ip : String) (now : ℕ) (d : D) (rl : Option Limiter) where
    abbrev checked : D × Passage
    checked = jwt_auth jwt tokens cfg users roles crypto header now d

    abbrev run : Outcome ((D × Option Limiter) × Reply A)
    run =
        protected_route jwt tokens cfg users roles crypto object_id_from_hex service guard handler
          header ip now (d, rl)

    abbrev limited : Claims → Outcome (Option Limiter × Verdict)
    limited c = limit_user jwt tokens cfg users roles crypto object_id_from_hex service rl c ip now

    pub data Ending : Type 0 where
      is_unauthenticated :
          (key : String)
          → checked.1 ≡ refused key
          → run ≡ returns ((checked.0, rl), unauthenticated key)
          → Ending
      is_limited :
          (c : Claims) (rl' : Option Limiter)
          → checked.1 ≡ admitted c
          → limited c ≡ returns (rl', Verdict.too_many_requests)
          → run ≡ returns ((checked.0, rl'), rate_limited)
          → Ending
      is_denied :
          (c : Claims) (rl' : Option Limiter) (why : Decision)
          → checked.1 ≡ admitted c
          → ¬ IsAllowed guard c
          → run ≡ returns ((checked.0, rl'), denied why)
          → Ending
      is_handled :
          (c : Claims) (rl' : Option Limiter) (t : String)
          → bearer_of header ≡ bearer t
          → IsValidToken t now d c
          → limited c ≡ returns (rl', Verdict.passes)
          → IsAllowed guard c
          → run ≡ (handler checked.0 >>= λ r. returns ((r.0, rl'), handled r.1))
          → Ending

    not-IsAllowed :
        (c : Claims) (dec : Decision)
        → authorize jwt tokens cfg users roles crypto object_id_from_hex service guard c ≡ dec
        → dec ≢ passes
        → ¬ IsAllowed guard c
    not-IsAllowed c dec e other a = other (sym e ∙ (authorize-IsAllowed guard c).1 a)

    by_decision :
        (c : Claims) (rl' : Option Limiter) (dec : Decision)
        → checked.1 ≡ admitted c
        → limited c ≡ returns (rl', Verdict.passes)
        → authorize jwt tokens cfg users roles crypto object_id_from_hex service guard c ≡ dec
        → Ending
    unfolding protected_route
    by_decision c rl' passes p l e =
        let (t, token, valid) = jwt_auth-IsValidToken header now d c p in
        is_handled c rl' t token valid l ((authorize-IsAllowed guard c).0 e) (rw (p, l, e) refl)
    by_decision c rl' unauthorized p l e =
        is_denied c rl' unauthorized p (not-IsAllowed c unauthorized e (λ q. ground arith))
          (rw (p, l, e) refl)
    by_decision c rl' forbidden p l e =
        is_denied c rl' forbidden p (not-IsAllowed c forbidden e (λ q. ground arith))
          (rw (p, l, e) refl)

    -- For a limiter of users that is sound, if there is one: a request to a protected route is
    -- answered by `JWTAuth`, by the limiter of its user, or by the authorization, because the
    -- token's roles do not have what the route asks for, and the state is what the check of the
    -- token left; or its header holds a token that is signed, not expired and not revoked, the user
    -- is within the limit, the roles have what the route asks for, and the handler runs.
    pub protected_route-Ending : IsSoundIfAny rl → Ending
    unfolding protected_route
    protected_route-Ending sound = by_passage checked.1 refl
      where
        by_verdict :
            (c : Claims) (r : Option Limiter × Verdict)
            → checked.1 ≡ admitted c
            → limited c ≡ returns r
            → Ending
        by_verdict c (rl', Verdict.too_many_requests) p l = is_limited c rl' p l (rw (p, l) refl)
        by_verdict c (rl', Verdict.passes) p l = by_decision c rl' _ p l refl

        by_passage : (q : Passage) → checked.1 ≡ q → Ending
        by_passage (refused key) p = is_unauthenticated key p (rw p refl)
        by_passage (admitted c) p =
            let (r, l, _) = limit_user-value rl c ip now sound in by_verdict c r p l
