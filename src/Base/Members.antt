-- ===== src/Base/Members.antt =====
-- Membership and "every item" by recursion: both compute to sums and products that the tactics
-- read. `◌∈◌` at a concrete list is found by `search`.
use mathlib.Core.Path.{◌≡◌, refl}
use mathlib.Core.Logic.{◌⊎◌, inl}
use mathlib.Core.List.{List, [], ◌∷◌}

infix 4 ◌∈◌
abbrev pub ◌∈◌ : {A : Type 0} → A → List A → Type 0
a ∈ [] = ⊥
a ∈ (x ∷ xs) = (a ≡ x) ⊎ (a ∈ xs)

abbrev pub All {ℓ κ} : {A : Type ℓ} → (A → Type κ) → List A → Type κ
All P [] = Unit
All P (x ∷ xs) = P x × All P xs

-- A list without members is empty.
pub empty-of_mem : {A : Type 0} (zs : List A) → ((z : A) → ¬ (z ∈ zs)) → zs ≡ []
empty-of_mem [] h = refl
empty-of_mem (z ∷ zs) h = absurd (h z (inl refl))
