-- ===== src/AsyncLogger/Totals.antt =====
-- Sums over a list, by the weight of each item.
use pack_service.Base.{
  ℕ, zero, suc, ◌+◌, ◌≡◌, refl, List, [], ◌∷◌, ◌++◌, some, arith, get_elem?, set, replicate, length,
  ◌≤◌,
}

module _ {A : Type 0} where
  abbrev pub total : (A → ℕ) → List A → ℕ
  total w [] = 0
  total w (x ∷ xs) = w x + total w xs

  pub total-append : (w : A → ℕ) (xs ys : List A) → total w (xs ++ ys) ≡ total w xs + total w ys
  total-append w [] ys = omega arith
  total-append w (x ∷ xs) ys = omega (arith, total-append w xs ys)

  pub total-set :
      (w : A → ℕ) (xs : List A) (i : ℕ) (p q : A)
      → get_elem? xs i ≡ some p
      → total w (set xs i q) + w p ≡ total w xs + w q
  total-set w [] i p q e = absurd (ground arith)
  total-set w (x ∷ xs) zero p q e = ground arith
  total-set w (x ∷ xs) (suc i) p q e = omega (arith, total-set w xs i p q e)

  pub total-get_elem?-le :
      (w : A → ℕ) (xs : List A) (i : ℕ) (p : A) → get_elem? xs i ≡ some p → w p ≤ total w xs
  total-get_elem?-le w [] i p e = absurd (ground arith)
  total-get_elem?-le w (x ∷ xs) zero p e = ground arith
  total-get_elem?-le w (x ∷ xs) (suc i) p e = omega (arith, total-get_elem?-le w xs i p e)

  pub total-replicate_zero : (w : A → ℕ) (n : ℕ) (x : A) → w x ≡ 0 → total w (replicate n x) ≡ 0
  total-replicate_zero w zero x e = refl
  total-replicate_zero w (suc n) x e = omega (arith, total-replicate_zero w n x e)

  pub total-one : (xs : List A) → total (λ x. 1) xs ≡ length xs
  total-one [] = refl
  total-one (x ∷ xs) = omega (arith, total-one xs)

  pub total-le : (v w : A → ℕ) → ((x : A) → v x ≤ w x) → (xs : List A) → total v xs ≤ total w xs
  total-le v w h [] = omega arith
  total-le v w h (x ∷ xs) = omega (arith, h x, total-le v w h xs)
