-- ===== src/Base/Endings.antt =====
-- How a piece of Go code ends: it returns a value, it panics (an index out of range, a slice bound
-- that is negative), or the rounds that the model allows a loop run out.
use mathlib.Core.Path.{◌≡◌, refl}
use mathlib.Core.Option.{Option, none, some}

pub data Outcome {ℓ} (A : Type ℓ) : Type ℓ where
  returns : A → Outcome A
  panics : Outcome A
  out_of_fuel : Outcome A

infixl 5 ◌>>=◌ ◌>>◌
abbrev pub ◌>>=◌ {ℓ κ} : {A : Type ℓ} {B : Type κ} → Outcome A → (A → Outcome B) → Outcome B
returns a >>= f = f a
panics >>= f = panics
out_of_fuel >>= f = out_of_fuel

abbrev pub ◌>>◌ {ℓ κ} : {A : Type ℓ} {B : Type κ} → Outcome A → Outcome B → Outcome B
m >> k = m >>= λ _. k

-- A read that misses is a panic.
abbrev pub or_panic {ℓ} : {A : Type ℓ} → Option A → Outcome A
or_panic none = panics
or_panic (some a) = returns a

-- The run returns, and its value satisfies `P`: total correctness.
pub data Returns {ℓ κ} {A : Type ℓ} (P : A → Type κ) : Outcome A → Type (ℓ ⊔ κ) where
  returned : {a : A} → P a → Returns P (returns a)

module _ {ℓ κ} {A : Type ℓ} {P : A → Type κ} where
  pub Returns->>= {ℓ' κ'} :
      {B : Type ℓ'} {Q : B → Type κ'} {m : Outcome A} {f : A → Outcome B}
      → Returns P m
      → ((a : A) → P a → Returns Q (f a))
      → Returns Q (m >>= f)
  Returns->>= (returned p) k = k _ p

  pub Returns-value : {m : Outcome A} → Returns P m → (a : A) × (m ≡ returns a) × P a
  Returns-value (returned {a} p) = (a, refl, p)

  pub Returns-weaken {κ'} :
      {Q : A → Type κ'} {m : Outcome A} → Returns P m → ((a : A) → P a → Q a) → Returns Q m
  Returns-weaken (returned p) k = returned (k _ p)
