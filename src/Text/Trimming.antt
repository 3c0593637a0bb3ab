-- ===== src/Text/Trimming.antt =====
-- What `strings.TrimSpace` returns, said without a loop.
use pack_service.Base.{
  ◌≡◌, ◌≢◌, refl, sym, ap, subst, ◌∙◌, true, false, [], ◌∷◌, ◌++◌, reverse, Bool-cases, All, inl,
  inr,
}
use mathlib.Core.List.{reverse-reverse, reverse-append}
use pack_service.Text.{Text, is_space, trim_left, trim_space}
use pack_service.Text.Pieces.{All-reverse}

-- A text of spaces alone.
abbrev pub IsBlank : Text → Type 0
IsBlank s = All (λ c. is_space c ≡ true) s

-- The first character is no space.
abbrev pub IsFlush : Text → Type 0
IsFlush [] = Unit
IsFlush (c ∷ s) = is_space c ≡ false

-- `k` is `p` without the spaces before and after it.
pub record IsTrimmed (p k : Text) : Type 0 where
  pub before : Text
  pub after : Text
  pub parts : p ≡ before ++ (k ++ after)
  pub blank_before : IsBlank before
  pub blank_after : IsBlank after
  pub flush : IsFlush k
  pub flush_end : IsFlush (reverse k)

trim_left-IsFlush : (s : Text) → IsFlush (trim_left s)
unfolding trim_left
trim_left-IsFlush [] = tt
trim_left-IsFlush (c ∷ s) = elim (Bool-cases (is_space c)) [
  | inl space ↦ rw space (trim_left-IsFlush s)
  | inr solid ↦ rw solid solid
]

-- What `trim_left` takes away.
record Blanks (s : Text) : Type 0 where
  taken : Text
  blank : IsBlank taken
  rest : s ≡ taken ++ trim_left s

trim_left-Blanks : (s : Text) → Blanks s
unfolding trim_left
trim_left-Blanks [] = record { taken = []; blank = tt; rest = refl }
trim_left-Blanks (c ∷ s) = elim (Bool-cases (is_space c)) [
  | inl space ↦
      let b = trim_left-Blanks s in
      record {
        taken = c ∷ b.taken;
        blank = (space, b.blank);
        rest = rw space (ap (λ l. c ∷ l) b.rest);
      }
  | inr solid ↦ record { taken = []; blank = tt; rest = rw solid refl }
]

trim_left-append : (b s : Text) → IsBlank b → trim_left (b ++ s) ≡ trim_left s
unfolding trim_left
trim_left-append [] s h = refl
trim_left-append (c ∷ b) s h = rw h.0 (trim_left-append b s h.1)

trim_left-flush : (s : Text) → IsFlush s → trim_left s ≡ s
unfolding trim_left
trim_left-flush [] h = refl
trim_left-flush (c ∷ s) h = rw h refl

IsFlush-append : (k s : Text) → k ≢ [] → IsFlush k → IsFlush (k ++ s)
IsFlush-append [] s n h = absurd (n refl)
IsFlush-append (c ∷ k) s n h = h

IsFlush-prefix : (k s : Text) → IsFlush (k ++ s) → IsFlush k
IsFlush-prefix [] s h = tt
IsFlush-prefix (c ∷ k) s h = h

pub trim_space-IsTrimmed : (p : Text) → IsTrimmed p (trim_space p)
unfolding trim_space
trim_space-IsTrimmed p =
    let q = trim_left p in
    let left = trim_left-Blanks p in
    let right = trim_left-Blanks (reverse q) in
    let k = reverse (trim_left (reverse q)) in
    let middle : q ≡ k ++ reverse right.taken =
      sym (reverse-reverse q)
      ∙ ap reverse right.rest
      ∙ reverse-append right.taken (trim_left (reverse q)) in
    record {
      before = left.taken;
      after = reverse right.taken;
      parts = left.rest ∙ ap (λ l. left.taken ++ l) middle;
      blank_before = left.blank;
      blank_after = All-reverse (λ c. is_space c ≡ true) right.taken right.blank;
      flush = IsFlush-prefix k (reverse right.taken) (subst IsFlush middle (trim_left-IsFlush p));
      flush_end =
          subst IsFlush (sym (reverse-reverse (trim_left (reverse q))))
            (trim_left-IsFlush (reverse q));
    }

-- No other text is left of it, unless nothing is.
pub IsTrimmed-trim_space : (p k : Text) → k ≢ [] → IsTrimmed p k → trim_space p ≡ k
unfolding trim_space
IsTrimmed-trim_space p k n t =
    let left : trim_left p ≡ k ++ t.after =
      ap trim_left t.parts
      ∙ trim_left-append t.before (k ++ t.after) t.blank_before
      ∙ trim_left-flush (k ++ t.after) (IsFlush-append k t.after n t.flush) in
    let right : trim_left (reverse (k ++ t.after)) ≡ reverse k =
      ap trim_left (reverse-append k t.after)
      ∙ trim_left-append (reverse t.after) (reverse k)
          (All-reverse (λ c. is_space c ≡ true) t.after t.blank_after)
      ∙ trim_left-flush (reverse k) t.flush_end in
    ap (λ l. reverse (trim_left (reverse l))) left ∙ ap reverse right ∙ reverse-reverse k
