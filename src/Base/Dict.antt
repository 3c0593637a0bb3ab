-- ===== src/Base/Dict.antt =====
-- Go maps, as association lists with one entry for each key.
use Prim.Native.String.{String}
use text.Mathlib.Text.{◌==◌ as str_eq}
use text.Mathlib.TextEquality.{eq_iff}
use pack_service.Base.{
  ℕ, ◌≡◌, refl, ap, ◌↔◌, Bool, true, List, [], ◌∷◌, Option, none, some, arith, if◌then◌else◌,
  Bool-cases, inl, inr, ◌==◌ as nat_eq, ==_iff,
}
use pack_service.Base.Int.{ℤ, eq_ℤ, eq_ℤ_iff}

-- The keys of a map: types with a Boolean equality.
pub record Eq (K : Type 0) : Type 0 where
  pub beq : K → K → Bool
  pub beq_iff : (a b : K) → (beq a b ≡ true) ↔ (a ≡ b)

infix 50 ◌==◌
abbrev pub ◌==◌ : {K : Type 0} ⦃e : Eq K⦄ → K → K → Bool
◌==◌ ⦃e⦄ = e.beq

instance abbrev pub string_eq : Eq String
string_eq = record { beq = str_eq; beq_iff = eq_iff }

instance abbrev pub int_eq : Eq ℤ
int_eq = record { beq = eq_ℤ; beq_iff = eq_ℤ_iff }

instance abbrev pub number_eq : Eq ℕ
number_eq = record { beq = nat_eq; beq_iff = ==_iff }

module _ {K V : Type 0} ⦃e : Eq K⦄ where
  -- `m[k]`, with its second result as an option
  unfoldable pub lookup : K → List (K × V) → Option V
  lookup k [] = none
  lookup k ((j, v) ∷ m) = if j == k then some v else lookup k m

  -- `m[k] = v`
  unfoldable pub put : K → V → List (K × V) → List (K × V)
  put k v [] = (k, v) ∷ []
  put k v ((j, w) ∷ m) = if j == k then (k, v) ∷ m else (j, w) ∷ put k v m

  -- `delete(m, k)`
  unfoldable pub delete : K → List (K × V) → List (K × V)
  delete k [] = []
  delete k ((j, w) ∷ m) = if j == k then m else (j, w) ∷ delete k m

  -- `for k, v := range m { if bad(v) { delete(m, k) } }`
  unfoldable pub remove_if : (V → Bool) → List (K × V) → List (K × V)
  remove_if bad [] = []
  remove_if bad ((j, w) ∷ m) = let rest = remove_if bad m in if bad w then rest else (j, w) ∷ rest

  -- No key stands twice.
  abbrev pub IsDistinct : List (K × V) → Type 0
  IsDistinct [] = Unit
  IsDistinct ((j, w) ∷ m) = (lookup j m ≡ none) × IsDistinct m

  pub lookup-put :
      (k j : K) (v : V) (m : List (K × V))
      → lookup j (put k v m) ≡ (if k == j then some v else lookup j m)
  unfolding lookup put
  lookup-put k j v [] = refl
  lookup-put k j v ((i, w) ∷ m) =
      ground (arith, e.beq_iff k j, e.beq_iff i k, e.beq_iff i j, lookup-put k j v m)

  pub put-IsDistinct : (k : K) (v : V) (m : List (K × V)) → IsDistinct m → IsDistinct (put k v m)
  unfolding put lookup
  put-IsDistinct k v [] h = (refl, tt)
  put-IsDistinct k v ((i, w) ∷ m) h = elim (Bool-cases (i == k)) [
    | inl same ↦ rw same (let i_eq : i ≡ k = (e.beq_iff i k).0 same in rw i_eq at h)
    | inr other ↦
        rw other (
          ground (arith, e.beq_iff i k, e.beq_iff k i, lookup-put k i v m),
          put-IsDistinct k v m h.1,
        )
  ]

  pub lookup-delete :
      (k j : K) (m : List (K × V))
      → IsDistinct m
      → lookup j (delete k m) ≡ (if k == j then none else lookup j m)
  unfolding lookup delete
  lookup-delete k j [] h = ground arith
  lookup-delete k j ((i, w) ∷ m) h = ground (
    arith,
    e.beq_iff k j,
    e.beq_iff i k,
    e.beq_iff i j,
    lookup-delete k j m,
    ap (λ x. lookup x m),
  )

  pub lookup-remove_if :
      (bad : V → Bool) (k : K) (m : List (K × V))
      → IsDistinct m
      → lookup k (remove_if bad m)
        ≡ elim (lookup k m) [ none ↦ none | some v ↦ if bad v then none else some v ]
  unfolding lookup remove_if
  lookup-remove_if bad k [] h = refl
  lookup-remove_if bad k ((i, w) ∷ m) h = elim (Bool-cases (i == k)) [
    | inl same ↦
        let gone : lookup k m ≡ none = rw (← (e.beq_iff i k).0 same) h.0 in
        ground (arith, lookup-remove_if bad k m)
    | inr other ↦ ground (arith, lookup-remove_if bad k m)
  ]

module _ {K V : Type 0} ⦃e : Eq K⦄ where
  pub remove_if-IsDistinct :
      (bad : V → Bool) (m : List (K × V)) → IsDistinct m → IsDistinct (remove_if bad m)
  unfolding remove_if
  remove_if-IsDistinct bad [] h = tt
  remove_if-IsDistinct bad ((i, w) ∷ m) h = elim (Bool-cases (bad w)) [
    | inl gone ↦ rw gone (remove_if-IsDistinct bad m h.1)
    | inr kept ↦ rw kept (ground (arith, lookup-remove_if bad i m), remove_if-IsDistinct bad m h.1)
  ]

  pub delete-IsDistinct : (k : K) (m : List (K × V)) → IsDistinct m → IsDistinct (delete k m)
  unfolding delete
  delete-IsDistinct k [] h = tt
  delete-IsDistinct k ((i, w) ∷ m) h = elim (Bool-cases (i == k)) [
    | inl same ↦ rw same h.1
    | inr other ↦ rw other (ground (arith, lookup-delete k i m), delete-IsDistinct k m h.1)
  ]
