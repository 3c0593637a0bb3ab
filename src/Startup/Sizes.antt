-- ===== src/Startup/Sizes.antt =====
-- What `parseIntSlice` makes of a text.
use pack_service.Base.{
  ℕ, ◌≤◌, ◌<◌, ◌≡◌, ◌≢◌, refl, ap, ◌∙◌, inl, inr, true, List, [], ◌∷◌, ◌++◌, map, some, arith,
  Bool-cases, Option-cases, All,
}
use pack_service.Base.Int.{ℤ, pos, negsuc, ltb_ℤ}
use pack_service.Base.Machine.{max_int}
use pack_service.Packs.Selection.{IsPositive}
use pack_service.Startup.{positive_parts, parse_int_slice}
use pack_service.Text.{Text, trim_space, split, atoi}
use pack_service.Text.Pieces.{join, split-join, Lacks, trim_space-IsSolid}
use pack_service.Text.Decimal.{print, print-ne-nil, atoi-print, print-Lacks, print-IsSolid}

-- Whatever the text, only positive sizes are taken.
positive_parts-IsPositive : (ps : List Text) → All IsPositive (positive_parts ps)
unfolding positive_parts
positive_parts-IsPositive [] = tt
positive_parts-IsPositive (p ∷ ps) =
    let rest = positive_parts-IsPositive ps in
    elim (Option-cases (atoi (trim_space p))) [
      | inl bad ↦ rw (bad, positive_parts) rest
      | inr (v, e) ↦ elim (Bool-cases (ltb_ℤ (pos 0) v)) [
        | inl above ↦ rw (e, positive_parts, above) (IsPositive_of_test v above, rest)
        | inr below ↦ rw (e, positive_parts, below) rest
      ]
    ]
  where
    IsPositive_of_test : (v : ℤ) → ltb_ℤ (pos 0) v ≡ true → IsPositive v
    IsPositive_of_test (pos n) h = ground arith
    IsPositive_of_test (negsuc n) h = absurd (ground arith)

pub parse_int_slice-IsPositive : (s : Text) → All IsPositive (parse_int_slice s)
unfolding parse_int_slice
parse_int_slice-IsPositive [] = tt
parse_int_slice-IsPositive (c ∷ s) = positive_parts-IsPositive (split b',' (c ∷ s))

abbrev pub IsSize : ℕ → Type 0
IsSize n = (0 < n) × (n ≤ max_int)

positive_parts-print : (ns : List ℕ) → All IsSize ns → positive_parts (map print ns) ≡ map pos ns
unfolding positive_parts
positive_parts-print [] h = refl
positive_parts-print (n ∷ ns) h =
    let number : atoi (trim_space (print n)) ≡ some (pos n) =
      ap atoi (trim_space-IsSolid (print n) (print-IsSolid n)) ∙ atoi-print n h.0.1 in
    let above : ltb_ℤ (pos 0) (pos n) ≡ true = ground arith in
    rw (number, positive_parts, above) (ap (λ zs. pos n ∷ zs) (positive_parts-print ns h.1))

all_lack : (ns : List ℕ) → All (Lacks b',') (map print ns)
all_lack [] = tt
all_lack (n ∷ ns) = (print-Lacks n, all_lack ns)

of_text : (s : Text) → s ≢ [] → parse_int_slice s ≡ positive_parts (split b',' s)
unfolding parse_int_slice
of_text [] h = absurd (h refl)
of_text (c ∷ s) h = refl

join-ne-nil : (n : ℕ) (ns : List ℕ) → join b',' (map print (n ∷ ns)) ≢ []
unfolding join
join-ne-nil n [] = print-ne-nil n
join-ne-nil n (m ∷ ns) = append-ne-nil (print n) b',' (join b',' (map print (m ∷ ns)))
  where
    append-ne-nil : (s : Text) (c : ℕ) (rest : Text) → s ++ c ∷ rest ≢ []
    append-ne-nil [] c rest e = cc
    append-ne-nil (d ∷ s) c rest e = cc

-- The sizes that are written with commas between them, each in decimal and all of them positive
-- and an `int`, are the sizes that are read.
pub parse_int_slice-join :
    (ns : List ℕ) → All IsSize ns → parse_int_slice (join b',' (map print ns)) ≡ map pos ns
parse_int_slice-join [] h = unfold parse_int_slice join in refl
parse_int_slice-join (n ∷ ns) h =
    of_text (join b',' (map print (n ∷ ns))) (join-ne-nil n ns)
    ∙ ap positive_parts (split-join b',' (map print (n ∷ ns)) (λ e. cc) (all_lack (n ∷ ns)))
    ∙ positive_parts-print (n ∷ ns) h
