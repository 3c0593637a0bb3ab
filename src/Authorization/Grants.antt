-- ===== src/Authorization/Grants.antt =====
-- The loops over roles and permissions, and the map of permissions, as memberships.
use pack_service.Base.{
  ◌≡◌, ◌↔◌, ◌⊎◌, inl, inr, refl, sym, ap, subst, ◌∙◌, Bool, true, false, Bool-cases, Option-cases,
  List, [], ◌∷◌, Option, none, some, arith, if◌then◌else◌, ◌∈◌,
}
use pack_service.Base.Dict.{string_eq, ◌==◌, lookup, put, lookup-put}
use Prim.Native.String.{String}
use pack_service.Authorization.{
  Role, FoundRole, error, no_role, role, holds_role, has_required_role, user_roles, add_role,
  add_permissions, collect_permissions, granted,
}

pub true_ne_false : {A : Type 0} → true ≡ false → A
true_ne_false e = absurd (ground arith)

holds_role-mem : (x : String) (roles : List String) → (holds_role x roles ≡ true) ↔ (x ∈ roles)
unfolding holds_role
holds_role-mem x [] = ((λ e. true_ne_false (sym e)), λ m. absurd m)
holds_role-mem x (r ∷ roles) = elim (Bool-cases (r == x)) [
  | inl same ↦ rw same ((λ e. inl (sym ((string_eq.beq_iff r x).0 same))), λ m. refl)
  | inr other ↦
      let rest = holds_role-mem x roles in
      rw other (
        (λ e. inr (rest.0 e)),
        λ m. elim m [
          | inl here ↦ true_ne_false (sym ((string_eq.beq_iff r x).1 (sym here)) ∙ other)
          | inr below ↦ rest.1 below
        ],
      )
]

pub has_required_role-mem :
    (required roles : List String)
    → (has_required_role required roles ≡ true) ↔ ((x : String) × (x ∈ required) × (x ∈ roles))
unfolding has_required_role
has_required_role-mem [] roles = ((λ e. true_ne_false (sym e)), λ s. absurd s.1)
has_required_role-mem (y ∷ required) roles =
    let first = holds_role-mem y roles in
    let rest = has_required_role-mem required roles in
    elim (Bool-cases (holds_role y roles)) [
      | inl held ↦ rw held ((λ e. (y, inl refl, first.0 held)), λ s. refl)
      | inr missing ↦ rw missing (
        (λ e. (let (x, m, n) = rest.0 e in (x, inr m, n))),
        λ (x, m, n). elim m [
          | inl here ↦ true_ne_false (sym (first.1 (subst (λ z. z ∈ roles) here n)) ∙ missing)
          | inr below ↦ rest.1 (x, below, n)
        ],
      )
    ]

granted-put :
    (p q : String) (ids : List (String × Bool))
    → granted (put p true ids) q ≡ (if p == q then true else granted ids q)
unfolding granted
granted-put p q ids = elim (Bool-cases (p == q)) [
  | inl same ↦
      let e : lookup q (put p true ids) ≡ some true = lookup-put p q true ids ∙ rw same refl in
      rw (same, e, granted) refl
  | inr other ↦
      let e : lookup q (put p true ids) ≡ lookup q ids = lookup-put p q true ids ∙ rw other refl in
      rw (other, e, granted) refl
]

add_permissions-mem :
    (ps : List String) (ids : List (String × Bool)) (q : String)
    → (granted (add_permissions ps ids) q ≡ true) ↔ ((q ∈ ps) ⊎ (granted ids q ≡ true))
unfolding add_permissions
add_permissions-mem [] ids q = ((λ e. inr e), λ s. elim s [ inl m ↦ absurd m | inr e ↦ e ])
add_permissions-mem (p ∷ ps) ids q =
    let rest = add_permissions-mem ps (put p true ids) q in
    elim (Bool-cases (p == q)) [
      | inl same ↦
          let here : q ≡ p = sym ((string_eq.beq_iff p q).0 same) in
          let is_in : granted (put p true ids) q ≡ true = granted-put p q ids ∙ rw same refl in
          ((λ e. inl (inl here)), λ s. rest.1 (inr is_in))
      | inr other ↦
          let as_before : granted (put p true ids) q ≡ granted ids q =
            granted-put p q ids ∙ rw other refl in
          (
            (λ e. elim (rest.0 e) [ inl m ↦ inl (inr m) | inr g ↦ inr (sym as_before ∙ g) ]),
            λ s. elim s [
              | inl m ↦ elim m [
                | inl here ↦ true_ne_false (sym ((string_eq.beq_iff p q).1 (sym here)) ∙ other)
                | inr below ↦ rest.1 (inl below)
              ]
              | inr g ↦ rest.1 (inr (as_before ∙ g))
            ],
          )
    ]

collect_permissions-mem :
    (roles : List Role) (ids : List (String × Bool)) (q : String)
    → (granted (collect_permissions roles ids) q ≡ true)
      ↔ (((r : Role) × (r ∈ roles) × (q ∈ r.permissions)) ⊎ (granted ids q ≡ true))
unfolding collect_permissions
collect_permissions-mem [] ids q = ((λ e. inr e), λ s. elim s [ inl m ↦ absurd m.1 | inr e ↦ e ])
collect_permissions-mem (r ∷ roles) ids q =
    let one = add_permissions-mem r.permissions ids q in
    let rest = collect_permissions-mem roles (add_permissions r.permissions ids) q in
    (
      (λ e. elim (rest.0 e) [
        | inl (x, m, n) ↦ inl (x, inr m, n)
        | inr g ↦ elim (one.0 g) [ inl n ↦ inl (r, inl refl, n) | inr h ↦ inr h ]
      ]),
      λ s. elim s [
        | inl (x, m, n) ↦ elim m [
          | inl here ↦ rest.1 (inr (one.1 (inl (subst (λ z. q ∈ z.permissions) here n))))
          | inr below ↦ rest.1 (inl (x, below, n))
        ]
        | inr h ↦ rest.1 (inr (one.1 (inr h)))
      ],
    )

module _ {ObjectId : Type 0} (object_id_from_hex : String → Option ObjectId) where
  -- The role is that of one of the ids: the id parses, and the service finds the role.
  abbrev pub IsFound : Option (ObjectId → FoundRole) → List String → Role → Type 0
  IsFound none ids r = ⊥
  IsFound (some find) ids r =
      (s : String) × (s ∈ ids)
      × ((id : ObjectId) × (object_id_from_hex s ≡ some id) × (find id ≡ role r))

  -- One of the roles of the user has the permission.
  abbrev pub IsGranted : Option (ObjectId → FoundRole) → List String → String → Type 0
  IsGranted service ids p = (r : Role) × IsFound service ids r × (p ∈ r.permissions)

  add_role-mem :
      (f : FoundRole) (roles : List Role) (r : Role)
      → (r ∈ add_role object_id_from_hex f roles) ↔ ((f ≡ role r) ⊎ (r ∈ roles))
  add_role-mem error roles r =
      ((λ m. inr m), λ s. elim s [ inl e ↦ absurd (ground arith) | inr m ↦ m ])
  add_role-mem no_role roles r =
      ((λ m. inr m), λ s. elim s [ inl e ↦ absurd (ground arith) | inr m ↦ m ])
  add_role-mem (role x) roles r = (
    (λ m. elim m [ inl e ↦ inl (ap role (sym e)) | inr n ↦ inr n ]),
    λ s. elim s [ inl e ↦ inl (ground arith) | inr m ↦ inr m ],
  )

  user_roles_bad :
      (find : ObjectId → FoundRole) (s : String) (ids : List String)
      → object_id_from_hex s ≡ none
      → user_roles object_id_from_hex (some find) (s ∷ ids)
        ≡ user_roles object_id_from_hex (some find) ids
  unfolding user_roles
  user_roles_bad find s ids e = rw (e, user_roles) refl

  user_roles_good :
      (find : ObjectId → FoundRole) (s : String) (ids : List String) (id : ObjectId)
      → object_id_from_hex s ≡ some id
      → user_roles object_id_from_hex (some find) (s ∷ ids)
        ≡ add_role object_id_from_hex (find id) (user_roles object_id_from_hex (some find) ids)
  unfolding user_roles
  user_roles_good find s ids id e = rw (e, user_roles) refl

  user_roles-mem :
      (service : Option (ObjectId → FoundRole)) (ids : List String) (r : Role)
      → (r ∈ user_roles object_id_from_hex service ids) ↔ IsFound service ids r
  unfolding user_roles
  user_roles-mem none ids r = ((λ m. m), λ m. m)
  user_roles-mem (some find) [] r = ((λ m. absurd m), λ s. absurd s.1)
  user_roles-mem (some find) (s ∷ ids) r =
      let rest = user_roles-mem (some find) ids r in
      elim (Option-cases (object_id_from_hex s)) [
        | inl bad ↦
            subst (λ l. (r ∈ l) ↔ IsFound (some find) (s ∷ ids) r)
              (sym (user_roles_bad find s ids bad))
              (
                (λ m. (let (x, n, f) = rest.0 m in (x, inr n, f))),
                λ (x, n, f). elim n [
                  | inl here ↦ absurd (
                      let q : some f.0 ≡ none = sym f.1 ∙ ap object_id_from_hex here ∙ bad in
                      ground arith)
                  | inr below ↦ rest.1 (x, below, f)
                ],
              )
        | inr (id, good) ↦
            let one = add_role-mem (find id) (user_roles object_id_from_hex (some find) ids) r in
            subst (λ l. (r ∈ l) ↔ IsFound (some find) (s ∷ ids) r)
              (sym (user_roles_good find s ids id good))
              (
                (λ m. elim (one.0 m) [
                  | inl e ↦ (s, inl refl, (id, good, e))
                  | inr n ↦ (let (x, k, f) = rest.0 n in (x, inr k, f))
                ]),
                λ (x, n, f). elim n [
                  | inl here ↦
                      let q : some f.0 ≡ some id = sym f.1 ∙ ap object_id_from_hex here ∙ good in
                      let same : f.0 ≡ id = ground arith in one.1 (inl (ap find (sym same) ∙ f.2))
                  | inr below ↦ one.1 (inr (rest.1 (x, below, f)))
                ],
              )
      ]

  -- `has_all` and `has_any`, for the permissions of the found roles
  pub granted-IsGranted :
      (service : Option (ObjectId → FoundRole)) (ids : List String) (p : String)
      → (granted (collect_permissions (user_roles object_id_from_hex service ids) []) p ≡ true)
        ↔ IsGranted service ids p
  unfolding granted lookup
  granted-IsGranted service ids p =
      let c = collect_permissions-mem (user_roles object_id_from_hex service ids) [] p in
      (
        (λ e. elim (c.0 e) [
          | inl (r, m, n) ↦ (r, (user_roles-mem service ids r).0 m, n)
          | inr none_granted ↦ true_ne_false (sym none_granted)
        ]),
        λ (r, f, n). c.1 (inl (r, (user_roles-mem service ids r).1 f, n)),
      )
