-- ===== src/PackSizes/Fresh.antt =====
-- The document that `Create` leaves, and what `GetActive` finds then.
use pack_service.Base.{
  ◌≡◌, refl, ap, subst, ◌∙◌, ◌⊎◌, inl, inr, true, false, List, [], ◌∷◌, ◌++◌, some, All, ◌∈◌, arith,
}
use pack_service.Base.Int.{ℤ}
use pack_service.Handler.{PackSizeConfig}
use pack_service.PackSizes.{
  no_documents, driver_error, circuit_open, not_configured, Answer, refused, answered,
  active_is_true, Collection, Reads, proceed, or_nil, new_config, get_active, create,
}
use pack_service.PackSizes.Laws.{FindsOne, FitsNoMore, Inserted, CollectionLaws}
use Prim.Native.String.{String}

module _ {D : Type 0} (driver : Collection D) (laws : CollectionLaws driver) where
  open laws use {docs, stored}

  -- The only active document is the one that `c` was stored as.
  pub record IsFresh (c : PackSizeConfig) (d : D) : Type 0 where
    pub older : List PackSizeConfig
    pub inactive : All (λ x. x.active ≡ false) older
    pub last : docs d ≡ older ++ stored c ∷ []

  -- What `Create` has done where it succeeds.
  pub create-IsFresh :
      (sizes : List ℤ) (by : String) (reads : Reads) (d : D) (c : PackSizeConfig)
      → (create driver sizes by reads d).1 ≡ answered c
      → (c ≡ new_config sizes by reads) × IsFresh c (create driver sizes by reads d).0
  unfolding create
  create-IsFresh sizes by reads d c =
      go (driver.deactivate_many active_is_true reads.changed_at d)
        (laws.deactivate_many_lem reads.changed_at d)
    where
      put :
          (d1 : D) (r : D × Answer (Unit {0}))
          → All (λ x. x.active ≡ false) (docs d1)
          → Inserted (docs d1) (docs r.0) (stored (new_config sizes by reads)) r.1
          → (proceed r λ _ d2. (d2, answered (new_config sizes by reads))).1 ≡ answered c
          → (c ≡ new_config sizes by reads)
            × IsFresh c (proceed r λ _ d2. (d2, answered (new_config sizes by reads))).0
      put d1 (d2, refused e) inactive i q = absurd (ground arith)
      put d1 (d2, answered u) inactive i q =
          let same : c ≡ new_config sizes by reads = ground arith in
          (same, record { older = docs d1; inactive = inactive; last = i ∙ rw same refl })

      go :
          (r : D × Answer (Unit {0}))
          → FitsNoMore active_is_true (docs r.0) r.1
          → (proceed r λ _ d1.
              proceed
                (driver.insert_one (new_config sizes by reads) d1)
                λ _ d2. (d2, answered (new_config sizes by reads))).1
            ≡ answered c
          → (c ≡ new_config sizes by reads)
            × IsFresh c
                (proceed r λ _ d1.
                  proceed
                    (driver.insert_one (new_config sizes by reads) d1)
                    λ _ d2. (d2, answered (new_config sizes by reads))).0
      go (d1, refused e) fits q = absurd (ground arith)
      go (d1, answered u) fits q =
          put d1 (driver.insert_one (new_config sizes by reads) d1) fits
            (laws.insert_one_docs (new_config sizes by reads) d1) q

  only_last :
      (older : List PackSizeConfig) (x y : PackSizeConfig)
      → All (λ z. z.active ≡ false) older
      → y ∈ older ++ x ∷ []
      → y.active ≡ true
      → y ≡ x
  only_last [] x y inactive (inl e) a = e
  only_last [] x y inactive (inr m) a = absurd m
  only_last (z ∷ older) x y inactive (inl e) a = absurd (
      let off : y.active ≡ false = ap (λ (c : PackSizeConfig). c.active) e ∙ inactive.0 in
      ground arith)
  only_last (z ∷ older) x y inactive (inr m) a = only_last older x y inactive.1 m a

  last_inactive :
      (older : List PackSizeConfig) (x : PackSizeConfig)
      → All (λ z. z.active ≡ false) (older ++ x ∷ [])
      → x.active ≡ false
  last_inactive [] x h = h.0
  last_inactive (z ∷ older) x h = last_inactive older x h.1

  -- What `GetActive` may answer then: an error of the driver, or the new configuration.
  pub get_active-IsFresh :
      (reads : Reads) (c : PackSizeConfig) (d : D)
      → IsFresh c d
      → c.active ≡ true
      → ((get_active driver reads d).1 ≡ answered (some (stored c)))
        ⊎ ((get_active driver reads d).1 ≡ refused driver_error)
  unfolding get_active
  get_active-IsFresh reads c d fresh on = go (driver.find_one active_is_true d) (
      subst (λ ds. FindsOne active_is_true ds (driver.find_one active_is_true d).1) fresh.last
        (laws.find_one_lem active_is_true d))
    where
      go :
          (r : D × Answer PackSizeConfig)
          → FindsOne active_is_true (fresh.older ++ stored c ∷ []) r.1
          → (or_nil r.1 ≡ answered (some (stored c))) ⊎ (or_nil r.1 ≡ refused driver_error)
      go (d', refused no_documents) h =
          let off = last_inactive fresh.older (stored c) h in
          let still : (stored c).active ≡ true = (laws.stored_lem c).active ∙ on in
          absurd (ground arith)
      go (d', refused driver_error) h = inr refl
      go (d', refused circuit_open) h = absurd h
      go (d', refused not_configured) h = absurd h
      go (d', answered x) h =
          inl (
            ap (λ z. answered (some z)) (only_last fresh.older (stored c) x fresh.inactive h.0 h.1))
