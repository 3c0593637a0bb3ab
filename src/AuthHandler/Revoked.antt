-- ===== src/AuthHandler/Revoked.antt =====
-- A logout that succeeds revokes its access token, and a revoked token is refused.
use pack_service.Base.{
  ℕ, ◌≡◌, ◌≢◌, refl, sym, subst, inl, inr, Bool, true, false, List, [], ◌∷◌, Option, none, some,
  arith, Bool-cases, Option-cases,
}
use pack_service.Base.Dict.{string_eq, ◌==◌ as str_eq}
use pack_service.Tokens.{
  Error, token_blacklisted, Result, err, ok, Action, ClaimsWithJwt, Jwt, TokenRepository,
  TokenConfig, blacklist, validate_access_token, invalidate_access_token,
}
use pack_service.Tokens.Actions.{Result-cases}
use pack_service.Auth.{UserRepository, RoleRepository, Crypto, logout_step, logout}
use pack_service.AuthHandler.{no_header, no_prefix, no_token, bearer, after_prefix, bearer_of}
use pack_service.AuthHandler.Logouts.{Keeps, RevocationLaws, invalidate-Keeps}
use Prim.Native.String.{String}

-- A token that is taken from a header is not empty.
pub bearer_of-ne : (header t : String) → bearer_of header ≡ bearer t → str_eq t "" ≡ false
unfolding bearer_of
bearer_of-ne header t h = elim (Bool-cases (str_eq header "")) [
  | inl empty ↦ absurd (let q : no_header ≡ bearer t = rw empty at h in ground arith)
  | inr given ↦ elim (Option-cases (after_prefix "Bearer " header)) [
    | inl bad ↦ absurd (let q : no_prefix ≡ bearer t = rw (given, bad) at h in ground arith)
    | inr (token, e) ↦ elim (Bool-cases (str_eq token "")) [
      | inl blank ↦ absurd (let q : no_token ≡ bearer t = rw (given, e, blank) at h in ground arith)
      | inr full ↦
          let q : bearer token ≡ bearer t = rw (given, e, full) at h in
          let same : token ≡ t = ground arith in subst (λ z. str_eq z "" ≡ false) same full
    ]
  ]
]

module _ {D : Type 0} (jwt : Jwt) (tokens : TokenRepository D) (cfg : TokenConfig)
    (users : UserRepository D) (roles : RoleRepository D) (crypto : Crypto) where
  logout_step-Keeps :
      (P : D → Type 0) (text : String) (m : Action D Bool) (r : D × List Error)
      → Keeps P m
      → P r.0
      → P (logout_step jwt tokens cfg users roles crypto text m r).0
  logout_step-Keeps P text m (d, errs) keeps p = elim (Bool-cases (str_eq text "")) [
    | inl empty ↦ rw empty p
    | inr given ↦ elim (Result-cases (m d).1) [
      | inl (e, failed) ↦ rw (given, failed) (keeps d p)
      | inr (b, done) ↦ rw (given, done) (keeps d p)
    ]
  ]

  -- A step with a text that leaves no error was done, and there was none before.
  logout_step-done :
      (text : String) (m : Action D Bool) (r : D × List Error)
      → str_eq text "" ≡ false
      → (logout_step jwt tokens cfg users roles crypto text m r).1 ≡ []
      → (r.1 ≡ [])
        × (b : Bool) × ((m r.0).1 ≡ ok b)
        × ((logout_step jwt tokens cfg users roles crypto text m r).0 ≡ (m r.0).0)
  logout_step-done text m (d, errs) given h = elim (Result-cases (m d).1) [
    | inl (e, failed) ↦ absurd (let q : e ∷ errs ≡ [] = rw (given, failed) at h in cc)
    | inr (b, done) ↦ (rw (given, done) at h, b, done, rw (given, done) refl)
  ]

  -- How `Logout` ends
  abbrev ended : D × List Error → D × Result Bool
  ended r = elim r.1 [ [] ↦ (r.0, ok true) | e ∷ _ ↦ (r.0, err e) ]

  ended-state : (r : D × List Error) → (ended r).0 ≡ r.0
  ended-state (d, []) = refl
  ended-state (d, e ∷ es) = refl

  ended-ok : (r : D × List Error) (b : Bool) → (ended r).1 ≡ ok b → r.1 ≡ []
  ended-ok (d, []) b h = refl
  ended-ok (d, e ∷ es) b h = absurd (ground arith)

  logout_step-earlier :
      (text : String) (m : Action D Bool) (r : D × List Error)
      → (logout_step jwt tokens cfg users roles crypto text m r).1 ≡ []
      → r.1 ≡ []
  logout_step-earlier text m (d, errs) h = elim (Bool-cases (str_eq text "")) [
    | inl empty ↦ rw empty at h
    | inr given ↦ (logout_step-done text m (d, errs) given h).0
  ]

  module _ (IsRevoked : String → D → Type 0) (laws : RevocationLaws tokens users roles IsRevoked)
      (t : String) where
    abbrev P : D → Type 0
    P d = IsRevoked t d

    -- The state after the first step, and after both
    abbrev once : String → ℕ → D → D × List Error
    once access now d =
        logout_step jwt tokens cfg users roles crypto access
          (invalidate_access_token jwt tokens cfg access now) (d, [])

    abbrev twice : String → String → ℕ → D → D × List Error
    twice access refresh now d =
        logout_step jwt tokens cfg users roles crypto refresh (tokens.delete_by_token refresh)
          (once access now d)

    pub logout-Keeps :
        (access refresh : String) (now : ℕ) (d : D)
        → refresh ≢ t
        → P d
        → P (logout jwt tokens cfg users roles crypto access refresh now d).0
    unfolding logout
    logout-Keeps access refresh now d other p =
        subst P (sym (ended-state (twice access refresh now d))) (
          logout_step-Keeps P refresh (tokens.delete_by_token refresh) (once access now d)
            (laws.delete_keeps refresh t other)
            (logout_step-Keeps P access (invalidate_access_token jwt tokens cfg access now) (d, [])
              (invalidate-Keeps jwt tokens cfg users roles crypto IsRevoked laws t access now) p))

    invalidated-IsRevoked :
        (c : Option ClaimsWithJwt) (now : ℕ) (d : D) (b : Bool)
        → (blacklist jwt tokens cfg c t now d).1 ≡ ok b
        → P (blacklist jwt tokens cfg c t now d).0
    invalidated-IsRevoked none now d b h = absurd (ground arith)
    invalidated-IsRevoked (some c) now d b h = laws.create_revokes _ d b refl h

    -- A logout that succeeds revokes its access token.
    pub logout-IsRevoked :
        (refresh : String) (now : ℕ) (d : D) (b : Bool)
        → str_eq t "" ≡ false
        → refresh ≢ t
        → (logout jwt tokens cfg users roles crypto t refresh now d).1 ≡ ok b
        → P (logout jwt tokens cfg users roles crypto t refresh now d).0
    unfolding logout invalidate_access_token
    logout-IsRevoked refresh now d b given other h =
        let clean = ended-ok (twice t refresh now d) b h in
        let early =
          logout_step-earlier refresh (tokens.delete_by_token refresh) (once t now d) clean in
        let (_, b', done, state) =
          logout_step-done t (invalidate_access_token jwt tokens cfg t now) (d, []) given early in
        let revoked : P (once t now d).0 =
          subst P (sym state)
            (invalidated-IsRevoked (jwt.parse_any cfg.secret_key t now) now d b' done) in
        subst P (sym (ended-state (twice t refresh now d))) (
          logout_step-Keeps P refresh (tokens.delete_by_token refresh) (once t now d)
            (laws.delete_keeps refresh t other) revoked)

    pub refused_later :
        (later : ℕ) (d : D)
        → P d
        → (e : Error) × ((validate_access_token jwt tokens cfg t later d).1 ≡ err e)
    unfolding validate_access_token
    refused_later later d p = elim (Result-cases (tokens.is_blacklisted t d).1) [
      | inl (e, failed) ↦ (e, rw failed refl)
      | inr (true, found) ↦ (token_blacklisted, rw found refl)
      | inr (false, found) ↦ absurd (laws.is_found t d p found)
    ]
