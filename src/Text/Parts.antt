-- ===== src/Text/Parts.antt =====
-- What `strings.Split` returns, said without a loop.
use pack_service.Base.{
  ℕ, ◌≡◌, ◌≢◌, refl, sym, ap, subst, ◌∙◌, inl, inr, ◌↔◌, true, false, List, [], ◌∷◌, ◌++◌, arith,
  ◌==◌, ==_iff, Bool-cases, ◌∈◌,
}
use mathlib.Core.List.{append_assoc, append-nil}
use pack_service.Text.{Text, onto_first, split}
use pack_service.Text.Pieces.{Lacks, split_one, split_first}

-- Where a part ends: at the end of the text, or before a separator.
pub data IsEnd (sep : ℕ) : Text → Type 0 where
  at_end : IsEnd sep []
  before_sep : (s : Text) → IsEnd sep (sep ∷ s)

-- Where a part starts: at the start of the text, or behind a separator.
pub data IsStart (sep : ℕ) : Text → Type 0 where
  at_start : IsStart sep []
  behind_sep : (s : Text) → IsStart sep (s ++ sep ∷ [])

-- `p` is a part of the text, without a separator, between two separators or its ends.
pub record IsPart (sep : ℕ) (s p : Text) : Type 0 where
  pub before : Text
  pub after : Text
  pub whole : s ≡ before ++ (p ++ after)
  pub lacks : Lacks sep p
  pub start : IsStart sep before
  pub end : IsEnd sep after

module _ (sep : ℕ) where
  split-ne : (s : Text) → split sep s ≢ []
  unfolding split
  split-ne [] e = cc
  split-ne (c ∷ s) e = elim (Bool-cases (c == sep)) [
    | inl same ↦ (let q : [] ∷ split sep s ≡ [] = rw same at e in cc)
    | inr other ↦ onto_first-ne (split sep s) (rw other at e)
  ]
    where
      onto_first-ne : (ps : List Text) → onto_first c ps ≢ []
      onto_first-ne [] h = cc
      onto_first-ne (p ∷ ps) h = cc

  onto_first-append :
      (c : ℕ) (ps qs : List Text) → ps ≢ [] → onto_first c (ps ++ qs) ≡ onto_first c ps ++ qs
  onto_first-append c [] qs n = absurd (n refl)
  onto_first-append c (p ∷ ps) qs n = refl

  split-append : (b s : Text) → split sep (b ++ sep ∷ s) ≡ split sep b ++ split sep s
  unfolding split
  split-append [] s = (let same : (sep == sep) ≡ true = ground arith in rw same refl)
  split-append (c ∷ b) s = elim (Bool-cases (c == sep)) [
    | inl same ↦ rw same (ap (λ l. [] ∷ l) (split-append b s))
    | inr other ↦ rw other (
        ap (onto_first c) (split-append b s)
        ∙ onto_first-append c (split sep b) (split sep s) (split-ne b))
  ]

  mem-append : (p : Text) (ps qs : List Text) → p ∈ qs → p ∈ ps ++ qs
  mem-append p [] qs m = m
  mem-append p (q ∷ ps) qs m = inr (mem-append p ps qs m)

  leading : (p after : Text) → Lacks sep p → IsEnd sep after → p ∈ split sep (p ++ after)
  leading p _ h at_end = rw (append-nil p, split_one sep p h) (inl refl)
  leading p _ h (before_sep s) = rw (split_first sep p s h) (inl refl)

  IsPart-mem : (s p : Text) → IsPart sep s p → p ∈ split sep s
  IsPart-mem s p part =
      subst (λ l. p ∈ split sep l) (sym part.whole) (by_start part.before part.start)
    where
      by_start : (before : Text) → IsStart sep before → p ∈ split sep (before ++ (p ++ part.after))
      by_start _ at_start = leading p part.after part.lacks part.end
      by_start _ (behind_sep b) =
          rw (append_assoc b (sep ∷ []) (p ++ part.after), split-append b (p ++ part.after))
            (mem-append p (split sep b) (split sep (p ++ part.after))
              (leading p part.after part.lacks part.end))

  -- How a text is cut into parts.
  data Cuts : Text → List Text → Type 0 where
    uncut : {s : Text} → Lacks sep s → Cuts s (s ∷ [])
    cut :
        (p rest : Text) {s : Text} {ps : List Text}
        → s ≡ p ++ sep ∷ rest
        → Lacks sep p
        → Cuts rest ps
        → Cuts s (p ∷ ps)

  longer :
      (c : ℕ) (s : Text) (ps : List Text)
      → (c == sep) ≡ false
      → Cuts s ps
      → Cuts (c ∷ s) (onto_first c ps)
  longer c s _ h (uncut l) = uncut (h, l)
  longer c s _ h (cut p rest e l cuts) = cut (c ∷ p) rest (ap (λ t. c ∷ t) e) (h, l) cuts

  split-Cuts : (s : Text) → Cuts s (split sep s)
  unfolding split
  split-Cuts [] = uncut tt
  split-Cuts (c ∷ s) = elim (Bool-cases (c == sep)) [
    | inl same ↦
        let e : c ≡ sep = (==_iff c sep).0 same in
        rw same (cut [] s (ap (λ d. d ∷ s) e) tt (split-Cuts s))
    | inr other ↦ rw other (longer c s (split sep s) other (split-Cuts s))
  ]

  start_later : (q before : Text) → IsStart sep before → IsStart sep (q ++ sep ∷ before)
  start_later q _ at_start = behind_sep q
  start_later q _ (behind_sep b) =
      subst (IsStart sep) (append_assoc q (sep ∷ b) (sep ∷ [])) (behind_sep (q ++ sep ∷ b))

  Cuts-IsPart : (s : Text) (ps : List Text) → Cuts s ps → (p : Text) → p ∈ ps → IsPart sep s p
  Cuts-IsPart s _ (uncut l) p (inl e) = record {
    before = [];
    after = [];
    whole = sym e ∙ sym (append-nil p);
    lacks = subst (Lacks sep) (sym e) l;
    start = at_start;
    end = at_end;
  }
  Cuts-IsPart s _ (uncut l) p (inr n) = absurd n
  Cuts-IsPart s _ (cut q rest e l cuts) p (inl same) = record {
    before = [];
    after = sep ∷ rest;
    whole = e ∙ ap (λ t. t ++ sep ∷ rest) (sym same);
    lacks = subst (Lacks sep) (sym same) l;
    start = at_start;
    end = before_sep rest;
  }
  Cuts-IsPart s _ (cut q rest {ps} e l cuts) p (inr m) =
      let later = Cuts-IsPart rest ps cuts p m in
      record {
        before = q ++ sep ∷ later.before;
        after = later.after;
        whole =
            e
            ∙ ap (λ t. q ++ sep ∷ t) later.whole
            ∙ sym (append_assoc q (sep ∷ later.before) (p ++ later.after));
        lacks = later.lacks;
        start = start_later q later.before later.start;
        end = later.end;
      }

  -- The parts that `split` returns are these.
  pub split-IsPart : (s p : Text) → (p ∈ split sep s) ↔ IsPart sep s p
  split-IsPart s p = (Cuts-IsPart s (split sep s) (split-Cuts s) p, IsPart-mem s p)
