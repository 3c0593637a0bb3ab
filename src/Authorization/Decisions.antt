-- ===== src/Authorization/Decisions.antt =====
-- When `RequireAuthorization` lets a request pass, said without its loops and its map.
use pack_service.Base.{
  ◌≡◌, ◌↔◌, ◌⊎◌, inl, inr, refl, sym, ap, subst, ◌∙◌, Bool, true, false, Bool-cases, List, [], ◌∷◌,
  Option, arith, if◌then◌else◌, ◌∈◌, All,
}
use pack_service.Base.Dict.{string_eq}
use Prim.Native.String.{String}
use pack_service.Authorization.{
  Claims, AuthorizationConfig, ContextValue, absent, another, claims, FoundRole, Decision, passes,
  forbidden, has_required_role, user_roles, collect_permissions, granted, has_all, has_any,
  check_permissions, check_roles, require_authorization,
}
use pack_service.Authorization.Grants.{
  true_ne_false, has_required_role-mem, IsGranted, granted-IsGranted,
}

module _ {ObjectId : Type 0} (object_id_from_hex : String → Option ObjectId) where
  -- What the permissions of a route ask for: all of them, or one of them.
  abbrev pub Meets : Bool → (String → Type 0) → List String → Type 0
  Meets true Has ps = All Has ps
  Meets false Has ps = (p : String) × (p ∈ ps) × Has p

  has_all-All :
      (granted_ids : List (String × Bool)) (Has : String → Type 0)
      → ((p : String) → (granted granted_ids p ≡ true) ↔ Has p)
      → (ps : List String) → (has_all granted_ids ps ≡ true) ↔ All Has ps
  unfolding has_all
  has_all-All ids Has h [] = ((λ e. tt), λ a. refl)
  has_all-All ids Has h (p ∷ ps) =
      let rest = has_all-All ids Has h ps in
      elim (Bool-cases (granted ids p)) [
        | inl held ↦ rw held ((λ e. ((h p).0 held, rest.0 e)), λ a. rest.1 a.1)
        | inr missing ↦
            rw missing
              ((λ e. true_ne_false (sym e)), λ a. true_ne_false (sym ((h p).1 a.0) ∙ missing))
      ]

  has_any-mem :
      (granted_ids : List (String × Bool)) (Has : String → Type 0)
      → ((p : String) → (granted granted_ids p ≡ true) ↔ Has p)
      → (ps : List String) → (has_any granted_ids ps ≡ true) ↔ ((p : String) × (p ∈ ps) × Has p)
  unfolding has_any
  has_any-mem ids Has h [] = ((λ e. true_ne_false (sym e)), λ s. absurd s.1)
  has_any-mem ids Has h (p ∷ ps) =
      let rest = has_any-mem ids Has h ps in
      elim (Bool-cases (granted ids p)) [
        | inl held ↦ rw held ((λ e. (p, inl refl, (h p).0 held)), λ s. refl)
        | inr missing ↦ rw missing (
          (λ e. (let (q, m, g) = rest.0 e in (q, inr m, g))),
          λ (q, m, g). elim m [
            | inl here ↦ true_ne_false (sym ((h p).1 (subst Has here g)) ∙ missing)
            | inr below ↦ rest.1 (q, below, g)
          ],
        )
      ]

  -- A route that asks for roles gets one of them, and a route that asks for permissions gets all of
  -- them or one of them, as it says.
  abbrev pub IsAuthorized :
      AuthorizationConfig → Option (ObjectId → FoundRole) → List String → Type 0
  IsAuthorized cfg service roles =
      ((cfg.required_roles ≡ []) ⊎ ((x : String) × (x ∈ cfg.required_roles) × (x ∈ roles)))
      × ((cfg.required_permissions ≡ [])
          ⊎ Meets cfg.require_all_permissions (IsGranted object_id_from_hex service roles)
              cfg.required_permissions)

  check_permissions-Meets :
      (cfg : AuthorizationConfig) (service : Option (ObjectId → FoundRole)) (roles ps : List String)
      → (check_permissions object_id_from_hex cfg service roles ps ≡ passes) ↔ (
          (ps ≡ [])
          ⊎ Meets cfg.require_all_permissions (IsGranted object_id_from_hex service roles) ps)
  unfolding check_permissions
  check_permissions-Meets cfg service roles [] = ((λ e. inl refl), λ s. refl)
  check_permissions-Meets cfg service roles (p ∷ ps) = by_mode cfg.require_all_permissions refl
    where
      ids : List (String × Bool)
      ids = collect_permissions (user_roles object_id_from_hex service roles) []

      decides :
          (b : Bool) (P : Type 0)
          → (b ≡ true) ↔ P
          → ((let d : Decision = if b then passes else forbidden in d) ≡ passes)
            ↔ ((p ∷ ps ≡ []) ⊎ P)
      decides true P h = ((λ e. inr (h.0 refl)), λ s. refl)
      decides false P h = (
        (λ e. absurd (ground arith)),
        λ s. elim s [ inl e ↦ absurd (ground arith) | inr q ↦ true_ne_false (sym (h.1 q)) ],
      )

      by_mode :
          (mode : Bool)
          → cfg.require_all_permissions ≡ mode
          → (check_permissions object_id_from_hex cfg service roles (p ∷ ps) ≡ passes) ↔ (
              (p ∷ ps ≡ [])
              ⊎ Meets cfg.require_all_permissions
                  (IsGranted object_id_from_hex service roles)
                  (p ∷ ps))
      by_mode true e = rw e (
          decides (has_all ids (p ∷ ps)) (All (IsGranted object_id_from_hex service roles) (p ∷ ps))
            (has_all-All ids (IsGranted object_id_from_hex service roles)
              (granted-IsGranted object_id_from_hex service roles) (p ∷ ps)))
      by_mode false e = rw e (
          decides (has_any ids (p ∷ ps))
            ((q : String) × (q ∈ p ∷ ps) × IsGranted object_id_from_hex service roles q)
            (has_any-mem ids (IsGranted object_id_from_hex service roles)
              (granted-IsGranted object_id_from_hex service roles) (p ∷ ps)))

  check_roles-IsAuthorized :
      (cfg : AuthorizationConfig) (service : Option (ObjectId → FoundRole))
      (roles required : List String)
      → (check_roles object_id_from_hex cfg service roles required ≡ passes) ↔ (
          ((required ≡ []) ⊎ ((x : String) × (x ∈ required) × (x ∈ roles)))
          × ((cfg.required_permissions ≡ [])
              ⊎ Meets cfg.require_all_permissions
                  (IsGranted object_id_from_hex service roles)
                  cfg.required_permissions))
  unfolding check_roles
  check_roles-IsAuthorized cfg service roles [] =
      let permissions = check_permissions-Meets cfg service roles cfg.required_permissions in
      ((λ e. (inl refl, permissions.0 e)), λ a. permissions.1 a.1)
  check_roles-IsAuthorized cfg service roles (r ∷ rs) =
      let permissions = check_permissions-Meets cfg service roles cfg.required_permissions in
      let has = has_required_role-mem (r ∷ rs) roles in
      elim (Bool-cases (has_required_role (r ∷ rs) roles)) [
        | inl held ↦
            rw (held, check_roles)
              ((λ e. (inr (has.0 held), permissions.0 e)), λ a. permissions.1 a.1)
        | inr missing ↦
            rw (missing, check_roles)
              (
                (λ e. absurd (ground arith)),
                λ a. elim a.0 [
                  | inl e ↦ absurd (ground arith)
                  | inr s ↦ true_ne_false (sym (has.1 s) ∙ missing)
                ],
              )
      ]

  -- A request passes exactly when its context holds the claims of a token whose roles are
  -- authorized: the route asks for no roles or for one that the user has, and it asks for no
  -- permissions, or, as it says, each or one of those that it asks for is granted by a role of the
  -- user that is found.
  pub require_authorization-IsAuthorized :
      (cfg : AuthorizationConfig) (service : Option (ObjectId → FoundRole)) (context : ContextValue)
      → (require_authorization object_id_from_hex cfg service context ≡ passes)
        ↔ ((c : Claims) × (context ≡ claims c) × IsAuthorized cfg service c.roles)
  unfolding require_authorization
  require_authorization-IsAuthorized cfg service absent =
      ((λ e. absurd (ground arith)), λ s. (let e = s.1 in absurd (ground arith)))
  require_authorization-IsAuthorized cfg service another =
      ((λ e. absurd (ground arith)), λ s. (let e = s.1 in absurd (ground arith)))
  require_authorization-IsAuthorized cfg service (claims c) =
      let roles = check_roles-IsAuthorized cfg service c.roles cfg.required_roles in
      (
        (λ e. (c, refl, roles.0 e)),
        λ (d, e, a).
            let same : c ≡ d = ap claims_of e in
            roles.1 (subst (λ z. IsAuthorized cfg service z.roles) (sym same) a),
      )
    where
      claims_of : ContextValue → Claims
      claims_of (claims d) = d
      claims_of _ = c
