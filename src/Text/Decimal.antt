-- ===== src/Text/Decimal.antt =====
-- A number comes back from its decimal print.
use pack_service.Base.{
  ℕ, zero, suc, ◌+◌, ◌-◌, ◌*◌, ◌/◌, ◌%◌, ◌≤◌, ◌<◌, ◌≡◌, ◌≢◌, refl, ap, ◌∙◌, inl, inr, true, false,
  [], ◌∷◌, ◌++◌, none, some, arith, ltb, leb, ◌==◌, if◌then◌else◌, Bool-cases, All,
}
use mathlib.Core.List.{concat-ne-nil}
use pack_service.Base.Int.{pos}
use pack_service.Base.Machine.{max_int}
use pack_service.Text.{Text, is_digit, read_digits, positive, atoi}
use pack_service.Text.Pieces.{All-append, Lacks, IsSolid}

-- The last `f` digits of a number, without leading zeros.
unfoldable pub spell : ℕ → ℕ → Text
spell zero n = []
spell (suc f) n =
    let rest = spell f (n / 10) in
    let last = (b'0' + n % 10) ∷ [] in if ltb n 10 then last else rest ++ last

-- `strconv.Itoa`, of a number that is not negative: it has fewer digits than `suc n`.
unfoldable pub print : ℕ → Text
unfolding spell
print n = spell (suc n) n

abbrev IsDigits : Text → Type 0
IsDigits s = All (λ c. is_digit c ≡ true) s

digit_last : (n : ℕ) → is_digit (b'0' + n % 10) ≡ true
digit_last n = ground arith

spell-IsDigits : (f n : ℕ) → IsDigits (spell f n)
unfolding spell
spell-IsDigits zero n = tt
spell-IsDigits (suc f) n = elim (Bool-cases (ltb n 10)) [
  | inl one ↦ rw one (digit_last n, tt)
  | inr more ↦ rw more (
      All-append (λ c. is_digit c ≡ true) (spell f (n / 10)) ((b'0' + n % 10) ∷ [])
        (spell-IsDigits f (n / 10)) (digit_last n, tt))
]

read_digits-append :
    (s : Text) (d n v : ℕ)
    → read_digits n s ≡ some v
    → is_digit d ≡ true
    → read_digits n (s ++ d ∷ []) ≡ some (v * 10 + (d - b'0'))
unfolding read_digits
read_digits-append [] d n v e h = rw h (let same : n ≡ v = ground arith in rw same refl)
read_digits-append (c ∷ s) d n v e h = elim (Bool-cases (is_digit c)) [
  | inl ok ↦
      let rest : read_digits (n * 10 + (c - b'0')) s ≡ some v = rw ok at e in
      rw ok (read_digits-append s d (n * 10 + (c - b'0')) v rest h)
  | inr bad ↦ absurd (let q : none ≡ some v = rw bad at e in ground arith)
]

read_digits-spell : (f n : ℕ) → n < f → read_digits 0 (spell f n) ≡ some n
unfolding spell
read_digits-spell zero n h = absurd (omega arith)
read_digits-spell (suc f) n h = elim (Bool-cases (ltb n 10)) [
  | inl one ↦ rw one (unfold read_digits in rw (digit_last n) (ap some (ground arith)))
  | inr more ↦
      let below : n / 10 < f = ground arith in
      rw more (
        read_digits-append (spell f (n / 10)) (b'0' + n % 10) 0 (n / 10)
          (read_digits-spell f (n / 10) below) (digit_last n)
        ∙ ap some (omega arith))
]

atoi-IsDigits : (s : Text) → s ≢ [] → IsDigits s → atoi s ≡ positive (read_digits 0 s)
unfolding atoi
atoi-IsDigits [] n h = absurd (n refl)
atoi-IsDigits (c ∷ s) n h =
    let digit = h.0 in
    let no_minus : (c == b'-') ≡ false = ground arith in
    let no_plus : (c == b'+') ≡ false = ground arith in rw (no_minus, no_plus) refl

pub print-ne-nil : (n : ℕ) → print n ≢ []
unfolding print
print-ne-nil n = elim (Bool-cases (ltb n 10)) [
  | inl one ↦ rw one (λ e. cc)
  | inr more ↦ rw more (concat-ne-nil (b'0' + n % 10) (spell n (n / 10)))
]

read_digits-print : (n : ℕ) → read_digits 0 (print n) ≡ some n
unfolding print
read_digits-print n = read_digits-spell (suc n) n (omega arith)

print-IsDigits : (n : ℕ) → IsDigits (print n)
unfolding print
print-IsDigits n = spell-IsDigits (suc n) n

pub atoi-print : (n : ℕ) → n ≤ max_int → atoi (print n) ≡ some (pos n)
atoi-print n h =
    let fits : leb n max_int ≡ true = ground arith in
    atoi-IsDigits (print n) (print-ne-nil n) (print-IsDigits n)
    ∙ ap positive (read_digits-print n)
    ∙ rw fits refl

Lacks-comma : (s : Text) → IsDigits s → Lacks b',' s
Lacks-comma [] h = tt
Lacks-comma (c ∷ s) h = (let digit = h.0 in ground arith, Lacks-comma s h.1)

IsDigits-IsSolid : (s : Text) → IsDigits s → IsSolid s
IsDigits-IsSolid [] h = tt
IsDigits-IsSolid (c ∷ s) h = (let digit = h.0 in ground arith, IsDigits-IsSolid s h.1)

pub print-Lacks : (n : ℕ) → Lacks b',' (print n)
print-Lacks n = Lacks-comma (print n) (print-IsDigits n)

pub print-IsSolid : (n : ℕ) → IsSolid (print n)
print-IsSolid n = IsDigits-IsSolid (print n) (print-IsDigits n)
