-- ===== src/Handler/Offers.antt =====
-- Which packs the endpoint of internal/http/handler.go is to answer a request with, said without its
-- own functions.
use pack_service.Base.{
  ℕ, ◌+◌, ◌≤◌, ◌<◌, ◌≡◌, ◌≢◌, refl, sym, ap, subst, ◌∙◌, ◌⊎◌, inl, inr, ◌↔◌, true, false, Bool,
  Bool-cases, Option-cases, List, [], ◌∷◌, Option, none, some, arith, ltb, if◌then◌else◌, All, ◌∈◌,
  empty-of_mem, Returns, returned, Outcome,
}
use pack_service.Base.Int.{ℤ, pos, negsuc, ltb_ℤ, pos_part}
use pack_service.Base.Machine.{max_int}
use pack_service.Packs.Selection.{IsPositive}
use pack_service.Packs.Sorting.{HasSmallSums, All-of_mem, IsBest-transfer}
use pack_service.Packs.Fill.{All-lookup}
use pack_service.Packs.Calculator.{Cache}
use pack_service.Packs.Service.{CacheLaws, IsAnswer, IsReady}
use pack_service.Handler.{
  Handler, PackSizesCache, PackSizeConfig, Fetched, failed, nothing, fetched, Times, get_sizes,
  set_sizes, get_active, keep_sizes, get_pack_sizes, valid_pack_sizes, calculate_packs,
}
use pack_service.Handler.Answers.{or_else, offered, IsAnswered, calculate_packs-offered}

-- The cache of pack sizes has no list that is still valid.
abbrev pub IsMiss : PackSizesCache → Times → Type 0
IsMiss c t = (c.expires_at ≤ t.got) ⊎ (c.sizes ≡ none)

-- The list of sizes that the cache or, on a miss, the database holds for the endpoint
pub data Holds (c : PackSizesCache) (has_service : Bool) (answer : Option Fetched) (t : Times)
    : List ℤ → Type 0 where
  in_cache :
      {zs : List ℤ} → t.got < c.expires_at → c.sizes ≡ some zs → Holds c has_service answer t zs
  in_database :
      {config : PackSizeConfig}
      → IsMiss c t
      → has_service ≡ true
      → answer ≡ some (fetched config)
      → Holds c has_service answer t config.sizes
  no_service : IsMiss c t → has_service ≡ false → Holds c has_service answer t []
  no_repository : IsMiss c t → answer ≡ none → Holds c has_service answer t []
  database_failed : IsMiss c t → answer ≡ some failed → Holds c has_service answer t []
  none_active : IsMiss c t → answer ≡ some nothing → Holds c has_service answer t []

-- The packs that a request with these sizes is to be answered with: exactly its own positive ones;
-- the configured ones, if it names sizes of which none is positive; and if it names none, those that
-- the cache or the database holds, or the configured ones where this list is empty.
pub data Offers {C : Type 0} (h : Handler C) (sizes : List ℤ) (answer : Option Fetched) (t : Times)
    (configured : List ℤ) : List ℤ → Type 0 where
  own :
      {zs : List ℤ} (x : ℤ)
      → x ∈ zs
      → ((z : ℤ) → (z ∈ zs) ↔ ((z ∈ sizes) × IsPositive z))
      → Offers h sizes answer t configured zs
  none_positive :
      sizes ≢ []
      → ((z : ℤ) → z ∈ sizes → ¬ IsPositive z)
      → Offers h sizes answer t configured configured
  held :
      {zs : List ℤ}
      → sizes ≡ []
      → zs ≢ []
      → Holds h.sizes_cache h.has_sizes_service answer t zs
      → Offers h sizes answer t configured zs
  none_held :
      sizes ≡ []
      → Holds h.sizes_cache h.has_sizes_service answer t []
      → Offers h sizes answer t configured configured

positive_if : (x : ℤ) → ltb_ℤ (pos 0) x ≡ true → IsPositive x
positive_if (pos n) h = ground arith
positive_if (negsuc n) h = absurd (ground arith)

not_positive : (x : ℤ) → ltb_ℤ (pos 0) x ≡ false → ¬ IsPositive x
not_positive (pos n) h p = ground arith
not_positive (negsuc n) h p = p

valid-mem : (sizes : List ℤ) (z : ℤ) → (z ∈ valid_pack_sizes sizes) ↔ ((z ∈ sizes) × IsPositive z)
unfolding valid_pack_sizes
valid-mem [] z = ((λ m. absurd m), λ m. absurd m.0)
valid-mem (x ∷ sizes) z =
    let rest = valid-mem sizes z in
    elim (Bool-cases (ltb_ℤ (pos 0) x)) [
      | inl kept ↦
          let above : IsPositive x = positive_if x kept in
          rw kept (
            (λ m. elim m [
              | inl e ↦ (inl e, subst IsPositive (sym e) above)
              | inr n ↦ (inr (rest.0 n).0, (rest.0 n).1)
            ]),
            λ m. elim m.0 [ inl e ↦ inl e | inr n ↦ inr (rest.1 (n, m.1)) ],
          )
      | inr dropped ↦ rw dropped (
        (λ m. (inr (rest.0 m).0, (rest.0 m).1)),
        λ m. elim m.0 [
          | inl e ↦ absurd (not_positive x dropped (subst IsPositive e m.1))
          | inr n ↦ rest.1 (n, m.1)
        ],
      )
    ]

missed : (c : PackSizesCache) (t : Times) → IsMiss c t → get_sizes c t.got ≡ none
unfolding get_sizes
missed c t (inl old) = (let test : ltb t.got c.expires_at ≡ false = ground arith in rw test refl)
missed c t (inr empty) = ground arith

kept_or_empty :
    (c : PackSizesCache) (config : PackSizeConfig) (t : Times)
    → (keep_sizes c (fetched config) t).1 ≡ config.sizes
kept_or_empty c config t = by_list config.sizes
  where
    by_list :
        (zs : List ℤ)
        → (let r : PackSizesCache × List ℤ = elim zs [
          | [] ↦ (c, [])
          | y ∷ ys ↦ (set_sizes c (y ∷ ys) t.tested t.stored, y ∷ ys)
        ] in
            r.1)
          ≡ zs
    by_list [] = refl
    by_list (z ∷ zs) = refl

either_empty :
    (c : PackSizesCache) (has_service : Bool) (r : PackSizesCache × List ℤ)
    → r.1 ≡ []
    → (let s : PackSizesCache × List ℤ = if has_service then r else (c, []) in s.1) ≡ []
either_empty c true r e = e
either_empty c false r e = refl

get_pack_sizes-Holds :
    (c : PackSizesCache) (has_service : Bool) (answer : Option Fetched) (t : Times) (zs : List ℤ)
    → Holds c has_service answer t zs
    → (get_pack_sizes c has_service answer t).1 ≡ zs
unfolding get_pack_sizes get_active
get_pack_sizes-Holds c has_service answer t zs (in_cache soon e) =
    let hit : get_sizes c t.got ≡ some zs = unfold get_sizes in ground arith in
    rw (get_pack_sizes, hit) refl
get_pack_sizes-Holds c has_service answer t _ (in_database {config} miss has e) =
    rw (get_pack_sizes, missed c t miss, has, e) (kept_or_empty c config t)
get_pack_sizes-Holds c has_service answer t _ (no_service miss has) =
    rw (get_pack_sizes, missed c t miss, has) refl
get_pack_sizes-Holds c has_service answer t _ (no_repository miss e) =
    rw (get_pack_sizes, missed c t miss, e) (either_empty c has_service (c, []) refl)
get_pack_sizes-Holds c has_service answer t _ (database_failed miss e) =
    rw (get_pack_sizes, missed c t miss, e) (either_empty c has_service (c, []) refl)
get_pack_sizes-Holds c has_service answer t _ (none_active miss e) =
    rw (get_pack_sizes, missed c t miss, e) (either_empty c has_service (c, []) refl)

or_else-ne : (xs ys : List ℤ) → xs ≢ [] → or_else xs ys ≡ xs
or_else-ne [] ys h = absurd (h refl)
or_else-ne (x ∷ xs) ys h = refl

mem-ne : (x : ℤ) (zs : List ℤ) → x ∈ zs → zs ≢ []
mem-ne x [] m e = m
mem-ne x (z ∷ zs) m e = cc

module _ {C : Type 0} (h : Handler C) (answer : Option Fetched) (t : Times)
    (configured : List ℤ) where
  abbrev IsSame : List ℤ → List ℤ → Type 0
  IsSame xs ys = (z : ℤ) → (z ∈ xs) ↔ (z ∈ ys)

  IsSame-list : (xs ys : List ℤ) → xs ≡ ys → IsSame xs ys
  IsSame-list xs ys e z = (subst (λ l. z ∈ l) e, subst (λ l. z ∈ l) (sym e))

  -- The code chooses these packs.
  Offers-offered :
      (sizes zs : List ℤ)
      → Offers h sizes answer t configured zs
      → IsSame (offered h sizes answer t configured) zs
  Offers-offered [] zs (own x m iff) z = absurd ((iff x).0 m).0
  Offers-offered (y ∷ ys) zs (own x m iff) z =
      let valid = valid-mem (y ∷ ys) in
      let some_valid : valid_pack_sizes (y ∷ ys) ≢ [] =
        mem-ne x (valid_pack_sizes (y ∷ ys)) ((valid x).1 ((iff x).0 m)) in
      rw (or_else-ne (valid_pack_sizes (y ∷ ys)) configured some_valid)
        ((λ n. (iff z).1 ((valid z).0 n)), λ n. (valid z).1 ((iff z).0 n))
  Offers-offered [] _ (none_positive some_sizes none_above) z = absurd (some_sizes refl)
  Offers-offered (y ∷ ys) _ (none_positive some_sizes none_above) z =
      let none_valid : valid_pack_sizes (y ∷ ys) ≡ [] =
        empty-of_mem (valid_pack_sizes (y ∷ ys))
          (λ x m. none_above x ((valid-mem (y ∷ ys) x).0 m).0 ((valid-mem (y ∷ ys) x).0 m).1) in
      rw none_valid ((λ m. m), λ m. m)
  Offers-offered [] zs (held e some_held holds) z =
      let found = get_pack_sizes-Holds h.sizes_cache h.has_sizes_service answer t zs holds in
      IsSame-list _ zs (ap (λ l. or_else l configured) found ∙ or_else-ne zs configured some_held) z
  Offers-offered (y ∷ ys) zs (held e some_held holds) z = absurd cc
  Offers-offered [] _ (none_held e holds) z =
      let found = get_pack_sizes-Holds h.sizes_cache h.has_sizes_service answer t [] holds in
      IsSame-list _ configured (ap (λ l. or_else l configured) found) z
  Offers-offered (y ∷ ys) _ (none_held e holds) z = absurd cc

  -- The sizes that are held for a request without sizes are positive if those offered are.
  held_positive :
      (sizes zs : List ℤ)
      → Offers h sizes answer t configured zs
      → All IsPositive zs
      → sizes ≡ []
      → All IsPositive (get_pack_sizes h.sizes_cache h.has_sizes_service answer t).1
  held_positive sizes zs (own x m iff) positive e = absurd (subst (λ l. x ∈ l) e ((iff x).0 m).0)
  held_positive sizes _ (none_positive some_sizes none_above) positive e = absurd (some_sizes e)
  held_positive sizes zs (held _ _ holds) positive e =
      rw (get_pack_sizes-Holds h.sizes_cache h.has_sizes_service answer t zs holds) positive
  held_positive sizes _ (none_held _ holds) positive e =
      rw (get_pack_sizes-Holds h.sizes_cache h.has_sizes_service answer t [] holds) tt

HasSmallSums-transfer :
    (items : ℕ) (xs ys : List ℤ)
    → ((z : ℤ) → z ∈ ys → z ∈ xs)
    → HasSmallSums items xs
    → HasSmallSums items ys
HasSmallSums-transfer items xs ys back small =
    All-of_mem (λ y. items + pos_part y + pos_part y ≤ max_int) ys
      (λ y m. All-lookup (λ z. items + pos_part z + pos_part z ≤ max_int) y xs small (back y m))

Returns-mono :
    {A : Type 0} {P Q : A → Type 0} {m : Outcome A}
    → Returns P m
    → ((a : A) → P a → Q a)
    → Returns Q m
Returns-mono (returned p) k = returned (k _ p)

-- Whatever the cache and the database answer, there is a list that is held.
record Holding (c : PackSizesCache) (has_service : Bool) (answer : Option Fetched) (t : Times)
    : Type 0 where
  list : List ℤ
  holds : Holds c has_service answer t list

Holding-missed :
    (c : PackSizesCache) (has_service : Bool) (answer : Option Fetched) (t : Times)
    → IsMiss c t
    → Holding c has_service answer t
Holding-missed c false answer t miss = record { list = []; holds = no_service miss refl }
Holding-missed c true none t miss = record { list = []; holds = no_repository miss refl }
Holding-missed c true (some failed) t miss = record { list = []; holds = database_failed miss refl }
Holding-missed c true (some nothing) t miss = record { list = []; holds = none_active miss refl }
Holding-missed c true (some (fetched config)) t miss = record {
  list = config.sizes;
  holds = in_database miss refl refl;
}

Holding-always :
    (c : PackSizesCache) (has_service : Bool) (answer : Option Fetched) (t : Times)
    → Holding c has_service answer t
Holding-always c has_service answer t = elim (Option-cases c.sizes) [
  | inl empty ↦ Holding-missed c has_service answer t (inr empty)
  | inr (zs, e) ↦ elim (Bool-cases (ltb t.got c.expires_at)) [
    | inl soon ↦ record { list = zs; holds = in_cache (ground arith) e }
    | inr late ↦ Holding-missed c has_service answer t (inl (ground arith))
  ]
]

-- And so there are always packs to be offered.
record Offering {C : Type 0} (h : Handler C) (sizes : List ℤ) (answer : Option Fetched) (t : Times)
    (configured : List ℤ) : Type 0 where
  packs : List ℤ
  offers : Offers h sizes answer t configured packs

Offering-always :
    {C : Type 0} (h : Handler C) (sizes : List ℤ) (answer : Option Fetched) (t : Times)
    (configured : List ℤ)
    → Offering h sizes answer t configured
Offering-always h [] answer t configured =
    let found = Holding-always h.sizes_cache h.has_sizes_service answer t in
    by_list found.list found.holds
  where
    by_list :
        (zs : List ℤ)
        → Holds h.sizes_cache h.has_sizes_service answer t zs
        → Offering h [] answer t configured
    by_list [] holds = record { packs = configured; offers = none_held refl holds }
    by_list (z ∷ zs) holds = record { packs = z ∷ zs; offers = held refl (λ e. cc) holds }
Offering-always h (y ∷ ys) answer t configured =
    by_valid (valid_pack_sizes (y ∷ ys)) (valid-mem (y ∷ ys))
  where
    by_valid :
        (zs : List ℤ)
        → ((z : ℤ) → (z ∈ zs) ↔ ((z ∈ y ∷ ys) × IsPositive z))
        → Offering h (y ∷ ys) answer t configured
    by_valid [] iff =
        (let none_above : (z : ℤ) → z ∈ y ∷ ys → ¬ IsPositive z =
            λ z m p. absurd ((iff z).1 (m, p)) in
          record { packs = configured; offers = none_positive (λ e. cc) none_above })
    by_valid (z ∷ zs) iff = record { packs = z ∷ zs; offers = own z (inl refl) iff }

module _ {C : Type 0} (ops : Cache C) (IsKept : C → Type 0) (configured : List ℤ)
    (laws : CacheLaws ops (IsAnswer configured) IsKept) where
  -- For a ready calculator whose cache obeys CacheLaws, an order of at least one item, and packs to
  -- be offered (by `Offers` above) that are all positive, and where the sum of the order and of
  -- twice a size is an int, the endpoint answers with success and the best choice of these packs,
  -- and the calculator is ready again. The packs are exactly the positive sizes of the request; the
  -- configured ones if it names sizes of which none is positive; and for a request without sizes
  -- those that the cache or, on a miss, the database holds, or the configured ones if that is none.
  pub calculate_packs-IsAnswered :
      (h : Handler C) (items : ℕ) (sizes zs : List ℤ) (answer : Option Fetched) (t : Times)
      → Offers h sizes answer t configured zs
      → IsReady IsKept h.calculator
      → h.calculator.pack_sizes ≡ configured
      → 0 < items
      → All IsPositive zs
      → HasSmallSums items zs
      → Returns (IsAnswered ops IsKept configured laws zs items) (
          calculate_packs ops h
            (some (record { items_ordered = pos items; pack_sizes = sizes }))
            answer
            t)
  calculate_packs-IsAnswered h items sizes zs answer t offers ready same items_pos positive small =
      let code = Offers-offered h answer t configured sizes zs offers in
      let chosen = offered h sizes answer t configured in
      Returns-mono
        (calculate_packs-offered ops IsKept configured laws h items sizes answer t ready same
          items_pos (held_positive h answer t configured sizes zs offers positive)
          (HasSmallSums-transfer items zs chosen (λ z. (code z).0) small))
        λ r a. record {
          result = a.result;
          success = a.success;
          best =
              IsBest-transfer chosen zs items a.result (λ z. (code z).0) (λ z. (code z).1) a.best;
          ready = a.ready;
          same = a.same;
        }
