-- ===== src/Tokens/Actions.antt =====
-- How actions and their results are taken apart.
use pack_service.Base.{◌≡◌, refl, ◌⊎◌, inl, inr, arith}
use pack_service.Tokens.{Error, Result, err, ok, Action, after}

-- A sequence that succeeds has a first part that succeeds.
pub ok-after :
    {D A B : Type 0} (r : D × Result A) (f : A → Action D B) (b : B)
    → (after r f).1 ≡ ok b
    → (a : A) × (r.1 ≡ ok a) × (after r f ≡ f a r.0) × ((f a r.0).1 ≡ ok b)
ok-after (d, err e) f b h = absurd (ground arith)
ok-after (d, ok a) f b h = (a, refl, refl, h)

-- A sequence whose first part succeeds goes on.
pub after-ok :
    {D A B : Type 0} (r : D × Result A) (f : A → Action D B) (a : A)
    → r.1 ≡ ok a
    → after r f ≡ f a r.0
after-ok (d, err e) f a h = absurd (ground arith)
after-ok (d, ok x) f a h = let same : x ≡ a = ground arith in rw same refl

pub Result-cases :
    {A : Type 0} (r : Result A) → ((e : Error) × (r ≡ err e)) ⊎ ((a : A) × (r ≡ ok a))
Result-cases (err e) = inl (e, refl)
Result-cases (ok a) = inr (a, refl)
