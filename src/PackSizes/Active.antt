-- ===== src/PackSizes/Active.antt =====
-- At most one configuration is active, whatever calls the repository gets one after the other.
use pack_service.Base.{
  ℕ, ◌+◌, ◌≤◌, ◌≡◌, refl, sym, ap, subst, inl, inr, Bool, true, false, List, [], ◌∷◌, ◌++◌, none,
  some, All, arith, Bool-cases, if◌then◌else◌,
}
use pack_service.Base.Int.{ℤ, pos}
use pack_service.Breaker.{Config, admit}
use pack_service.Handler.{PackSizeConfig}
use pack_service.PackSizes.{
  Answer, refused, answered, Filter, active_is_true, id_is, SizesUpdate, Collection, Reads,
  Repository, proceed, new_config, get_active, create, update, list, plain_repository, Guarded,
  guarded, guarded_repository,
}
use pack_service.PackSizes.Laws.{
  deactivated, updated, ChangesSome, FitsNoMore, Inserted, CollectionLaws,
}
use pack_service.Base.Machine.{add_int}
use text.Mathlib.Text.{◌==◌ as str_eq}
use Prim.Native.String.{String}

abbrev pub one_if_active : Bool → ℕ
one_if_active true = 1
one_if_active false = 0

abbrev pub active_count : List PackSizeConfig → ℕ
active_count [] = 0
active_count (c ∷ docs) = one_if_active c.active + active_count docs

active_count-append :
    (xs ys : List PackSizeConfig) → active_count (xs ++ ys) ≡ active_count xs + active_count ys
active_count-append [] ys = omega arith
active_count-append (x ∷ xs) ys = omega (arith, active_count-append xs ys)

pub one_if_active-le : (b : Bool) → one_if_active b ≤ 1
one_if_active-le true = omega arith
one_if_active-le false = omega arith

-- A change that activates no document.
active_count-ChangesSome :
    (q : Filter) (f : PackSizeConfig → PackSizeConfig)
    → ((c : PackSizeConfig) → one_if_active (f c).active ≤ one_if_active c.active)
    → (docs docs' : List PackSizeConfig) → ChangesSome q f docs docs'
    → active_count docs' ≤ active_count docs
active_count-ChangesSome q f fewer [] [] h = omega arith
active_count-ChangesSome q f fewer [] (y ∷ ys) h = absurd h
active_count-ChangesSome q f fewer (x ∷ xs) [] h = absurd h
active_count-ChangesSome q f fewer (x ∷ xs) (y ∷ ys) h =
    let rest = active_count-ChangesSome q f fewer xs ys h.1 in
    elim h.0 [
      | inl same ↦
          let e : one_if_active y.active ≡ one_if_active x.active =
            ap (λ (c : PackSizeConfig). one_if_active c.active) same in
          omega (arith, rest, e)
      | inr (_, changed) ↦
          let e : one_if_active y.active ≡ one_if_active (f x).active =
            ap (λ (c : PackSizeConfig). one_if_active c.active) changed in
          omega (arith, rest, e, fewer x)
    ]

active_count-none :
    (docs : List PackSizeConfig) → All (λ c. c.active ≡ false) docs → active_count docs ≡ 0
active_count-none [] h = refl
active_count-none (c ∷ docs) h =
    let e : one_if_active c.active ≡ 0 = ap one_if_active h.0 in
    omega (arith, e, active_count-none docs h.1)

module _ {D : Type 0} (driver : Collection D) (laws : CollectionLaws driver) where
  open laws use {docs, stored}

  -- At most one document is active.
  abbrev pub IsSingle : D → Type 0
  IsSingle d = active_count (docs d) ≤ 1

  one_more :
      (c : PackSizeConfig) (xs ys : List PackSizeConfig)
      → active_count xs ≡ 0
      → ys ≡ xs ++ c ∷ []
      → active_count ys ≤ 1
  one_more c xs ys none_active e =
      let grown = ap active_count e in
      let split = active_count-append xs (c ∷ []) in
      let one = one_if_active-le c.active in omega (arith, grown, split, one, none_active)

  -- The end of `Create`, where no document is active.
  insert-IsSingle :
      (c : PackSizeConfig) (d : D)
      → active_count (docs d) ≡ 0
      → IsSingle (proceed (driver.insert_one c d) λ _ d2. (d2, answered c)).0
  insert-IsSingle c d none_active = go (driver.insert_one c d) (laws.insert_one_docs c d)
    where
      go :
          (r : D × Answer (Unit {0}))
          → Inserted (docs d) (docs r.0) (stored c) r.1
          → IsSingle (proceed r λ _ d2. (d2, answered c)).0
      go (d2, refused e) (inl same) = omega (arith, ap active_count same, none_active)
      go (d2, refused e) (inr more) = one_more (stored c) (docs d) (docs d2) none_active more
      go (d2, answered u) more = one_more (stored c) (docs d) (docs d2) none_active more

  create-IsSingle :
      (sizes : List ℤ) (by : String) (reads : Reads) (d : D)
      → IsSingle d
      → IsSingle (create driver sizes by reads d).0
  unfolding create
  create-IsSingle sizes by reads d h =
      go (driver.deactivate_many active_is_true reads.changed_at d)
        (laws.deactivate_many_docs active_is_true reads.changed_at d)
        (laws.deactivate_many_lem reads.changed_at d)
    where
      go :
          (r : D × Answer (Unit {0}))
          → ChangesSome active_is_true (deactivated reads.changed_at) (docs d) (docs r.0)
          → FitsNoMore active_is_true (docs r.0) r.1
          → IsSingle
              (proceed r λ _ d1.
                proceed
                  (driver.insert_one (new_config sizes by reads) d1)
                  λ _ d2. (d2, answered (new_config sizes by reads))).0
      go (d1, refused e) changed fits =
          let fewer =
            active_count-ChangesSome active_is_true (deactivated reads.changed_at)
              (λ c. omega arith) (docs d) (docs d1) changed in
          omega (arith, fewer, h)
      go (d1, answered u) changed fits =
          insert-IsSingle (new_config sizes by reads) d1 (active_count-none (docs d1) fits)

  update-IsSingle :
      (id : String) (sizes : List ℤ) (by : String) (reads : Reads) (d : D)
      → IsSingle d
      → IsSingle (update driver id sizes by reads d).0
  unfolding update
  update-IsSingle id sizes by reads d h =
      go (driver.find_one (id_is id) d) (laws.find_one_docs (id_is id) d)
    where
      go :
          (r : D × Answer PackSizeConfig)
          → docs r.0 ≡ docs d
          → IsSingle
              (proceed r λ current d1.
                driver.find_one_and_update
                  (id_is id)
                  (record {
                    sizes = sizes;
                    updated_at = reads.updated_at;
                    version = add_int current.version (pos 1);
                    updated_by = if str_eq by "" then none else some by;
                  })
                  d1).0
      go (d1, refused e) same = omega (arith, ap active_count same, h)
      go (d1, answered current) same =
          let u : SizesUpdate = record {
            sizes = sizes;
            updated_at = reads.updated_at;
            version = add_int current.version (pos 1);
            updated_by = if str_eq by "" then none else some by;
          } in
          let fewer =
            active_count-ChangesSome (id_is id) (updated u) (λ c. omega arith) (docs d1)
              (docs (driver.find_one_and_update (id_is id) u d1).0)
              (laws.find_one_and_update_docs (id_is id) u d1) in
          let before = ap active_count same in omega (arith, fewer, before, h)

-- The calls of a repository.
pub data Call : Type 0 where
  getting : Reads → Call
  creating : List ℤ → String → Reads → Call
  updating : String → List ℤ → String → Reads → Call
  listing : ℤ → Reads → Call

-- The state after some calls, one after the other.
unfoldable pub run_calls : {S : Type 0} → Repository S → List Call → S → S
run_calls repo [] s = s
run_calls repo (getting reads ∷ calls) s = run_calls repo calls (repo.get_active reads s).0
run_calls repo (creating sizes by reads ∷ calls) s =
    run_calls repo calls (repo.create sizes by reads s).0
run_calls repo (updating id sizes by reads ∷ calls) s =
    run_calls repo calls (repo.update id sizes by reads s).0
run_calls repo (listing limit reads ∷ calls) s = run_calls repo calls (repo.list limit reads s).0

-- Each method of the repository keeps `P`, whatever it answers.
record Keeps {S : Type 0} (P : S → Type 0) (repo : Repository S) : Type 0 where
  on_get : (reads : Reads) (s : S) → P s → P (repo.get_active reads s).0
  on_create :
      (sizes : List ℤ) (by : String) (reads : Reads) (s : S)
      → P s
      → P (repo.create sizes by reads s).0
  on_update :
      (id : String) (sizes : List ℤ) (by : String) (reads : Reads) (s : S)
      → P s
      → P (repo.update id sizes by reads s).0
  on_list : (limit : ℤ) (reads : Reads) (s : S) → P s → P (repo.list limit reads s).0

module _ {S : Type 0} (P : S → Type 0) (repo : Repository S) (keeps : Keeps P repo) where
  run_calls-Keeps : (calls : List Call) (s : S) → P s → P (run_calls repo calls s)
  unfolding run_calls
  run_calls-Keeps [] s h = h
  run_calls-Keeps (getting reads ∷ calls) s h = run_calls-Keeps calls _ (keeps.on_get reads s h)
  run_calls-Keeps (creating sizes by reads ∷ calls) s h =
      run_calls-Keeps calls _ (keeps.on_create sizes by reads s h)
  run_calls-Keeps (updating id sizes by reads ∷ calls) s h =
      run_calls-Keeps calls _ (keeps.on_update id sizes by reads s h)
  run_calls-Keeps (listing limit reads ∷ calls) s h =
      run_calls-Keeps calls _ (keeps.on_list limit reads s h)

  guarded-keeps :
      {A : Type 0} (config : Config) (call : S → S × Answer A) (reads : Reads) (g : Guarded S)
      → P (call g.inner).0
      → P g.inner
      → P (guarded config call reads g).0.inner
  unfolding guarded
  guarded-keeps config call reads g done kept =
      elim (Bool-cases (admit config g.breaker reads.admitted_at).1) [
        | inl on ↦ rw on done
        | inr off ↦ rw off kept
      ]

  guarded_repository-Keeps :
      (config : Config) → Keeps (λ (g : Guarded S). P g.inner) (guarded_repository config repo)
  unfolding guarded_repository
  guarded_repository-Keeps config = record {
    on_get = λ reads g h.
        guarded-keeps config (repo.get_active reads) reads g (keeps.on_get reads g.inner h) h;
    on_create = λ sizes by reads g h.
        guarded-keeps config (repo.create sizes by reads) reads g
          (keeps.on_create sizes by reads g.inner h) h;
    on_update = λ id sizes by reads g h.
        guarded-keeps config (repo.update id sizes by reads) reads g
          (keeps.on_update id sizes by reads g.inner h) h;
    on_list = λ limit reads g h.
        guarded-keeps config (repo.list limit reads) reads g (keeps.on_list limit reads g.inner h)
          h;
  }

module _ {D : Type 0} (driver : Collection D) (laws : CollectionLaws driver) where
  plain_repository-Keeps : Keeps (IsSingle driver laws) (plain_repository driver)
  unfolding plain_repository get_active list
  plain_repository-Keeps = record {
    on_get = λ reads d h.
        subst (λ docs. active_count docs ≤ 1) (sym (laws.find_one_docs active_is_true d)) h;
    on_create = create-IsSingle driver laws;
    on_update = update-IsSingle driver laws;
    on_list = λ limit reads d h.
        subst (λ docs. active_count docs ≤ 1) (sym (laws.find_newest_docs _ d)) h;
  }

  -- For a driver that obeys `CollectionLaws`: from a database in which at most one configuration is
  -- active, after any sequence of calls of the repository in its circuit breaker, one after the
  -- other, at most one is active, whichever operations of the driver fail, whether or not one that
  -- fails was carried out, and whatever the breaker refuses.
  pub run_calls-IsSingle :
      (config : Config) (calls : List Call) (g : Guarded D)
      → IsSingle driver laws g.inner
      → IsSingle driver laws
          (run_calls (guarded_repository config (plain_repository driver)) calls g).inner
  run_calls-IsSingle config calls g h =
      run_calls-Keeps (λ (x : Guarded D). IsSingle driver laws x.inner)
        (guarded_repository config (plain_repository driver))
        (guarded_repository-Keeps (IsSingle driver laws) (plain_repository driver)
          plain_repository-Keeps config)
        calls g h
