-- ===== src/PackSizes/Memory.antt =====
-- A collection in memory that obeys the laws of the driver.
use pack_service.Base.{
  ℕ, ◌≡◌, refl, inl, inr, false, List, [], ◌∷◌, ◌++◌, All, arith, if◌then◌else◌, Bool-cases,
}
use pack_service.Handler.{PackSizeConfig}
use pack_service.PackSizes.{
  no_documents, driver_error, circuit_open, not_configured, Answer, refused, answered, Filter,
  active_is_true, Collection,
}
use pack_service.PackSizes.Laws.{
  matches, deactivated, updated, ChangesSome, FindsOne, CollectionLaws,
}
use pack_service.PackSizes.Active.{IsSingle}

abbrev Documents : Type 0
Documents = List PackSizeConfig

first_match : Filter → Documents → Answer PackSizeConfig
first_match q [] = refused no_documents
first_match q (c ∷ docs) = if matches q c then answered c else first_match q docs

change : Filter → (PackSizeConfig → PackSizeConfig) → Documents → Documents
change q f [] = []
change q f (c ∷ docs) = (if matches q c then f c else c) ∷ change q f docs

-- The driver.
unfoldable pub memory : Collection (List PackSizeConfig)
unfolding first_match change
memory = record {
  find_one = λ q d. (d, first_match q d);
  deactivate_many = λ q now d. (change q (deactivated now) d, answered tt);
  insert_one = λ c d. (d ++ c ∷ [], answered tt);
  find_one_and_update = λ q u d. (let d' = change q (updated u) d in (d', first_match q d'));
  find_newest = λ limit d. (d, answered d);
}

change-ChangesSome :
    (q : Filter) (f : PackSizeConfig → PackSizeConfig) (docs : Documents)
    → ChangesSome q f docs (change q f docs)
unfolding change
change-ChangesSome q f [] = tt
change-ChangesSome q f (c ∷ docs) = elim (Bool-cases (matches q c)) [
  | inl fits ↦ rw fits (inr (refl, refl), change-ChangesSome q f docs)
  | inr other ↦ rw other (inl refl, change-ChangesSome q f docs)
]

inactive_now :
    (now : ℕ) (c : PackSizeConfig) → (if c.active then deactivated now c else c).active ≡ false
inactive_now now c = ground arith

deactivated-All :
    (now : ℕ) (docs : Documents)
    → All (λ c. matches active_is_true c ≡ false) (change active_is_true (deactivated now) docs)
unfolding change
deactivated-All now [] = tt
deactivated-All now (c ∷ docs) = (inactive_now now c, deactivated-All now docs)

found_later :
    (q : Filter) (c : PackSizeConfig) (docs : Documents) (a : Answer PackSizeConfig)
    → matches q c ≡ false
    → FindsOne q docs a
    → FindsOne q (c ∷ docs) a
found_later q c docs (refused no_documents) other h = (other, h)
found_later q c docs (refused driver_error) other h = tt
found_later q c docs (refused circuit_open) other h = h
found_later q c docs (refused not_configured) other h = h
found_later q c docs (answered x) other h = (inr h.0, h.1)

first_match-FindsOne : (q : Filter) (docs : Documents) → FindsOne q docs (first_match q docs)
unfolding first_match
first_match-FindsOne q [] = tt
first_match-FindsOne q (c ∷ docs) = elim (Bool-cases (matches q c)) [
  | inl fits ↦ rw fits (inl refl, fits)
  | inr other ↦
      rw other (found_later q c docs (first_match q docs) other (first_match-FindsOne q docs))
]

pub memory-CollectionLaws : CollectionLaws memory
unfolding memory
memory-CollectionLaws = record {
  docs = λ d. d;
  stored = λ c. c;
  stored_lem = λ c. record { id = refl; sizes = refl; active = refl; version = refl };
  find_one_docs = λ q d. refl;
  find_one_lem = first_match-FindsOne;
  find_newest_docs = λ limit d. refl;
  deactivate_many_docs = λ q now d. change-ChangesSome q (deactivated now) d;
  deactivate_many_lem = deactivated-All;
  insert_one_docs = λ c d. refl;
  find_one_and_update_docs = λ q u d. change-ChangesSome q (updated u) d;
}

-- An empty collection has no active document.
pub empty-IsSingle : IsSingle memory memory-CollectionLaws []
unfolding memory-CollectionLaws
empty-IsSingle = omega arith
