-- ===== src/PackSizes/Laws.antt =====
-- What the repository relies on in the driver of MongoDB: each operation changes the documents in
-- its own way, and one that fails may have been carried out, in part or whole.
use pack_service.Base.{ℕ, ◌≡◌, ◌⊎◌, Bool, true, false, List, [], ◌∷◌, ◌++◌, Option, All, ◌∈◌}
use pack_service.Handler.{PackSizeConfig}
use pack_service.PackSizes.{
  no_documents, driver_error, circuit_open, not_configured, Answer, refused, answered, Filter,
  active_is_true, id_is, SizesUpdate, Collection,
}
use text.Mathlib.Text.{◌==◌ as str_eq}

abbrev pub matches : Filter → PackSizeConfig → Bool
matches active_is_true c = c.active
matches (id_is id) c = str_eq c.id id

abbrev pub deactivated : ℕ → PackSizeConfig → PackSizeConfig
deactivated now c = record c { active = false; updated_at = now }

abbrev pub updated : SizesUpdate → PackSizeConfig → PackSizeConfig
updated u c = record c { sizes = u.sizes; updated_at = u.updated_at; version = u.version }

-- Some documents that fit the filter were changed by `f`, and the others stay.
abbrev pub ChangesSome :
    Filter → (PackSizeConfig → PackSizeConfig) → List PackSizeConfig → List PackSizeConfig → Type 0
ChangesSome q f [] [] = Unit
ChangesSome q f [] (y ∷ ys) = ⊥
ChangesSome q f (x ∷ xs) [] = ⊥
ChangesSome q f (x ∷ xs) (y ∷ ys) =
    ((y ≡ x) ⊎ ((matches q x ≡ true) × (y ≡ f x))) × ChangesSome q f xs ys

-- What a search finds. The last two errors are not the driver's.
abbrev pub FindsOne : Filter → List PackSizeConfig → Answer PackSizeConfig → Type 0
FindsOne q docs (refused no_documents) = All (λ c. matches q c ≡ false) docs
FindsOne q docs (refused driver_error) = Unit
FindsOne q docs (refused circuit_open) = ⊥
FindsOne q docs (refused not_configured) = ⊥
FindsOne q docs (answered c) = (c ∈ docs) × (matches q c ≡ true)

-- A call that succeeds has changed every document that fits.
abbrev pub FitsNoMore : Filter → List PackSizeConfig → Answer (Unit {0}) → Type 0
FitsNoMore q docs (refused e) = Unit
FitsNoMore q docs (answered u) = All (λ c. matches q c ≡ false) docs

-- A document comes out of the database with the fields that were put in, but that times lose their
-- fractions of a millisecond.
pub record SameContent (c c' : PackSizeConfig) : Type 0 where
  pub id : c'.id ≡ c.id
  pub sizes : c'.sizes ≡ c.sizes
  pub active : c'.active ≡ c.active
  pub version : c'.version ≡ c.version

abbrev pub Inserted :
    List PackSizeConfig → List PackSizeConfig → PackSizeConfig → Answer (Unit {0}) → Type 0
Inserted docs docs' c (refused e) = (docs' ≡ docs) ⊎ (docs' ≡ docs ++ c ∷ [])
Inserted docs docs' c (answered u) = docs' ≡ docs ++ c ∷ []

pub record CollectionLaws {D : Type 0} (driver : Collection D) : Type 0 where
  pub docs : D → List PackSizeConfig
  pub stored : PackSizeConfig → PackSizeConfig
  pub stored_lem : (c : PackSizeConfig) → SameContent c (stored c)
  pub find_one_docs : (q : Filter) (d : D) → docs (driver.find_one q d).0 ≡ docs d
  pub find_one_lem : (q : Filter) (d : D) → FindsOne q (docs d) (driver.find_one q d).1
  pub find_newest_docs : (limit : Option _) (d : D) → docs (driver.find_newest limit d).0 ≡ docs d
  pub deactivate_many_docs :
      (q : Filter) (now : ℕ) (d : D)
      → ChangesSome q (deactivated now) (docs d) (docs (driver.deactivate_many q now d).0)
  pub deactivate_many_lem :
      (now : ℕ) (d : D)
      → FitsNoMore active_is_true
          (docs (driver.deactivate_many active_is_true now d).0)
          (driver.deactivate_many active_is_true now d).1
  pub insert_one_docs :
      (c : PackSizeConfig) (d : D)
      → Inserted (docs d) (docs (driver.insert_one c d).0) (stored c) (driver.insert_one c d).1
  pub find_one_and_update_docs :
      (q : Filter) (u : SizesUpdate) (d : D)
      → ChangesSome q (updated u) (docs d) (docs (driver.find_one_and_update q u d).0)
