-- ===== src/Text/Pieces.antt =====
-- Splitting what was joined, and trimming what has no spaces.
use pack_service.Base.{
  ℕ, ◌≡◌, ◌≢◌, refl, ap, ◌∙◌, true, false, List, [], ◌∷◌, ◌++◌, reverse, arith, ◌==◌, All,
}
use mathlib.Core.List.{reverse-reverse, reverse-cons}
use pack_service.Text.{Text, is_space, trim_left, trim_space, split}

-- `strings.Join`, with a separator of one character
unfoldable pub join : ℕ → List Text → Text
join sep [] = []
join sep (p ∷ []) = p
join sep (p ∷ q ∷ ps) = p ++ sep ∷ join sep (q ∷ ps)

abbrev pub Lacks : ℕ → Text → Type 0
Lacks sep s = All (λ c. (c == sep) ≡ false) s

pub split_one : (sep : ℕ) (p : Text) → Lacks sep p → split sep p ≡ p ∷ []
unfolding split
split_one sep [] h = refl
split_one sep (c ∷ p) h = rw (h.0, split_one sep p h.1) refl

pub split_first : (sep : ℕ) (p s : Text) → Lacks sep p → split sep (p ++ sep ∷ s) ≡ p ∷ split sep s
unfolding split
split_first sep [] s h = (let same : (sep == sep) ≡ true = ground arith in rw same refl)
split_first sep (c ∷ p) s h = rw (h.0, split_first sep p s h.1) refl

-- The parts of a join come back, if there is a part and none holds the separator.
pub split-join :
    (sep : ℕ) (ps : List Text) → ps ≢ [] → All (Lacks sep) ps → split sep (join sep ps) ≡ ps
unfolding join
split-join sep [] n h = absurd (n refl)
split-join sep (p ∷ []) n h = split_one sep p h.0
split-join sep (p ∷ q ∷ ps) n h =
    split_first sep p (join sep (q ∷ ps)) h.0
    ∙ ap (λ ts. p ∷ ts) (split-join sep (q ∷ ps) (λ e. cc) h.1)

abbrev pub IsSolid : Text → Type 0
IsSolid s = All (λ c. is_space c ≡ false) s

trim_left-IsSolid : (s : Text) → IsSolid s → trim_left s ≡ s
unfolding trim_left
trim_left-IsSolid [] h = refl
trim_left-IsSolid (c ∷ s) h = rw h.0 refl

pub All-append {ℓ} : (P : ℕ → Type ℓ) (xs ys : Text) → All P xs → All P ys → All P (xs ++ ys)
All-append P [] ys h k = k
All-append P (x ∷ xs) ys h k = (h.0, All-append P xs ys h.1 k)

pub All-reverse {ℓ} : (P : ℕ → Type ℓ) (xs : Text) → All P xs → All P (reverse xs)
All-reverse P [] h = tt
All-reverse P (x ∷ xs) h =
    rw (reverse-cons) (All-append P (reverse xs) (x ∷ []) (All-reverse P xs h.1) (h.0, tt))

-- A text without spaces stays as it is.
pub trim_space-IsSolid : (s : Text) → IsSolid s → trim_space s ≡ s
unfolding trim_space
trim_space-IsSolid s h =
    ap (λ t. reverse (trim_left (reverse t))) (trim_left-IsSolid s h)
    ∙ ap reverse (trim_left-IsSolid (reverse s) (All-reverse (λ c. is_space c ≡ false) s h))
    ∙ reverse-reverse s
