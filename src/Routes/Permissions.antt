-- ===== src/Routes/Permissions.antt =====
-- What a token must hold for the handler of an endpoint to run.
use pack_service.Base.{
  ℕ, ◌≡◌, ◌≢◌, refl, sym, subst, ◌∙◌, inl, inr, false, [], ◌∷◌, Option, some, arith, Bool-cases,
  Outcome, returns, panics, out_of_fuel, ◌>>=◌,
}
use pack_service.Base.Dict.{string_eq, ◌==◌}
use pack_service.Authorization.{Claims, AuthorizationConfig, FoundRole}
use pack_service.Authorization.Grants.{IsGranted}
use pack_service.Tokens.{ok, Jwt, TokenRepository, TokenConfig}
use pack_service.Auth.{UserRepository, RoleRepository, Crypto}
use pack_service.AuthHandler.{bearer, bearer_of, jwt_auth}
use pack_service.RateLimit.{Limiter}
use pack_service.Routes.{
  FindPermission, permission_id, permission_ids, Endpoint, logout_endpoint, calculate_endpoint,
  get_pack_sizes_endpoint, list_pack_sizes_endpoint, update_pack_sizes_endpoint, auth_middleware,
  guard_of, Reply, handled, protected_route,
}
use pack_service.Routes.Protected.{
  IsSoundIfAny, IsValidToken, IsAllowed, is_unauthenticated, is_limited, is_denied, is_handled,
  protected_route-Ending,
}
use Prim.Native.String.{String}

-- The action on packs that an endpoint is
abbrev pub Needs : Endpoint → String → Type 0
Needs logout_endpoint action = ⊥
Needs calculate_endpoint action = action ≡ "write"
Needs get_pack_sizes_endpoint action = action ≡ "read"
Needs list_pack_sizes_endpoint action = action ≡ "read"
Needs update_pack_sizes_endpoint action = action ≡ "write"

abbrev guard_for : String → AuthorizationConfig
guard_for id = record {
  required_roles = [];
  required_permissions = id ∷ [];
  require_all_permissions = false;
}

module _ {ObjectId : Type 0} (find_role : ObjectId → FoundRole) (find : FindPermission) where
  guarded_by :
      (id : String)
      → id ≢ ""
      → auth_middleware id (some find_role) (some (some find)) ≡ some (guard_for id)
  guarded_by id given = elim (Bool-cases (id == "")) [
    | inl empty ↦ absurd (given ((string_eq.beq_iff id "").0 empty))
    | inr full ↦ rw full refl
  ]

  guard_of-Needs :
      (endpoint : Endpoint) (action id : String)
      → Needs endpoint action
      → find "packs" action ≡ ok (some id)
      → id ≢ ""
      → guard_of (some find_role) (some (some find)) endpoint ≡ some (guard_for id)
  unfolding guard_of permission_ids permission_id
  guard_of-Needs logout_endpoint action id needs found given = absurd needs
  guard_of-Needs calculate_endpoint action id needs found given =
      rw (sym needs, found) (guarded_by id given)
  guard_of-Needs get_pack_sizes_endpoint action id needs found given =
      rw (sym needs, found) (guarded_by id given)
  guard_of-Needs list_pack_sizes_endpoint action id needs found given =
      rw (sym needs, found) (guarded_by id given)
  guard_of-Needs update_pack_sizes_endpoint action id needs found given =
      rw (sym needs, found) (guarded_by id given)

-- A run of the handler that was answered
handler-returns :
    {D A L : Type 0} (m : Outcome (D × A)) (rl : L) (s : D × L) (a : A)
    → (let n : Outcome ((D × L) × Reply A) = m >>= λ r. returns ((r.0, rl), handled r.1) in n)
      ≡ returns (s, handled a)
    → m ≡ returns (s.0, a)
handler-returns (returns (d, x)) rl (d', rl') a h = ground arith
handler-returns panics rl s a h = absurd (ground arith)
handler-returns out_of_fuel rl s a h = absurd (ground arith)

module _ {D ObjectId : Type 0} (jwt : Jwt) (tokens : TokenRepository D) (cfg : TokenConfig)
    (users : UserRepository D) (roles : RoleRepository D) (crypto : Crypto)
    (object_id_from_hex : String → Option ObjectId) (find_role : ObjectId → FoundRole)
    (find : FindPermission) where
  IsAllowed-IsGranted :
      (g : Option AuthorizationConfig) (id : String) (c : Claims)
      → g ≡ some (guard_for id)
      → IsAllowed jwt tokens cfg users roles crypto object_id_from_hex (some find_role) g c
      → IsGranted object_id_from_hex (some find_role) c.roles id
  IsAllowed-IsGranted g id c e h =
      let allowed : IsAllowed jwt tokens cfg users roles crypto object_id_from_hex (some find_role)
          (some (guard_for id)) c =
        subst
          (λ z. IsAllowed jwt tokens cfg users roles crypto object_id_from_hex (some find_role) z c)
          e h in
      elim allowed.1 [
        | inl none_asked ↦ absurd (ground arith)
        | inr (p, inl same, granted) ↦
            subst (IsGranted object_id_from_hex (some find_role) c.roles) same granted
        | inr (p, inr nowhere, granted) ↦ absurd nowhere
      ]

  -- For the permission that an endpoint needs, if it was found at start-up, and a limiter that is
  -- sound, if there is one: whenever a request to the endpoint is answered by its handler, its
  -- header holds a token that is signed, not expired and not revoked, a role in the token grants
  -- the permission, and the answer is what the handler gives in the state after the check of the
  -- token.
  pub protected_route-IsGranted :
      {A : Type 0} (endpoint : Endpoint) (action id : String) (handler : D → Outcome (D × A))
      (header ip : String) (now : ℕ) (d : D) (rl : Option Limiter) (s : D × Option Limiter) (a : A)
      → Needs endpoint action
      → find "packs" action ≡ ok (some id)
      → id ≢ ""
      → IsSoundIfAny rl
      → protected_route jwt tokens cfg users roles crypto object_id_from_hex
          (some find_role)
          (guard_of (some find_role) (some (some find)) endpoint)
          handler
          header
          ip
          now
          (d, rl)
        ≡ returns (s, handled a)
      → (c : Claims) × (t : String) × (bearer_of header ≡ bearer t)
        × IsValidToken jwt tokens cfg users roles crypto object_id_from_hex
            (some find_role)
            t
            now
            d
            c
        × IsGranted object_id_from_hex (some find_role) c.roles id
        × (handler (jwt_auth jwt tokens cfg users roles crypto header now d).0 ≡ returns (s.0, a))
  protected_route-IsGranted endpoint action id handler header ip now d rl s a needs found given
        sound h =
      elim (protected_route-Ending jwt tokens cfg users roles crypto object_id_from_hex
        (some find_role) (guard_of (some find_role) (some (some find)) endpoint) handler header ip
        now d rl sound) [
          | is_unauthenticated key p e ↦ absurd (let q = sym e ∙ h in ground arith)
          | is_limited c rl' p l e ↦ absurd (let q = sym e ∙ h in ground arith)
          | is_denied c rl' why p n e ↦ absurd (let q = sym e ∙ h in ground arith)
          | is_handled c rl' t token valid l allowed e ↦ (
            c,
            t,
            token,
            valid,
            IsAllowed-IsGranted _ id c
                (guard_of-Needs find_role find endpoint action id needs found given) allowed,
            handler-returns _ rl' s a (sym e ∙ h),
          )
        ]
