-- ===== src/Handler/Answers.antt =====
-- What the endpoint answers with the sizes that it chooses, and what it keeps.
use pack_service.Base.{
  ℕ, ◌+◌, ◌≤◌, ◌<◌, ◌≡◌, ◌≢◌, refl, sym, subst, ◌∙◌, true, false, Bool-cases, List, [], ◌∷◌, Option,
  some, arith, ltb, All, Returns, returned, Returns->>=, inl, inr,
}
use pack_service.Base.Int.{ℤ, pos, negsuc, leb_ℤ, ltb_ℤ}
use pack_service.Packs.{PackResult}
use pack_service.Packs.Selection.{IsPositive, IsBest}
use pack_service.Packs.Sorting.{HasSmallSums}
use pack_service.Packs.Calculator.{Cache}
use pack_service.Packs.Service.{
  CacheLaws, IsAnswer, WhereSome, IsReady, calculate-IsBest, calculate_with_pack_sizes-IsBest,
}
use pack_service.Handler.{
  Handler, PackSizesCache, PackSizeConfig, Fetched, fetched, Times, Response, success_ok, get_sizes,
  set_sizes, get_active, get_pack_sizes, validate, valid_pack_sizes, respond, by_sizes,
  answer_sizes, calculate_packs,
}

-- The first list, or the second where the first is empty.
abbrev pub or_else : List ℤ → List ℤ → List ℤ
or_else [] sizes = sizes
or_else (z ∷ zs) sizes = z ∷ zs

-- The sizes that a request is answered with: its own positive ones, or those of the cache or the
-- database where it names none; and the configured ones where these lists are empty.
abbrev pub offered : {C : Type 0} → Handler C → List ℤ → Option Fetched → Times → List ℤ → List ℤ
offered h [] answer t configured =
    or_else (get_pack_sizes h.sizes_cache h.has_sizes_service answer t).1 configured
offered h (z ∷ zs) answer t configured = or_else (valid_pack_sizes (z ∷ zs)) configured

valid_pack_sizes-IsPositive : (sizes : List ℤ) → All IsPositive (valid_pack_sizes sizes)
unfolding valid_pack_sizes
valid_pack_sizes-IsPositive [] = tt
valid_pack_sizes-IsPositive (pos n ∷ sizes) = elim (Bool-cases (ltb_ℤ (pos 0) (pos n))) [
  | inl kept ↦ rw kept (ground arith, valid_pack_sizes-IsPositive sizes)
  | inr dropped ↦ rw dropped (valid_pack_sizes-IsPositive sizes)
]
valid_pack_sizes-IsPositive (negsuc n ∷ sizes) =
    let dropped : ltb_ℤ (pos 0) (negsuc n) ≡ false = ground arith in
    rw dropped (valid_pack_sizes-IsPositive sizes)

positive_request : (n : ℕ) → 0 < n → leb_ℤ (pos n) (pos 0) ≡ false
positive_request n h = ground arith

module _ {C : Type 0} (ops : Cache C) (IsKept : C → Type 0) (configured : List ℤ)
    (laws : CacheLaws ops (IsAnswer configured) IsKept) where
  -- The response is a success with the best result for these sizes, and the calculator is ready.
  pub record IsAnswered (sizes : List ℤ) (items : ℕ) (r : Handler C × Response) : Type 0 where
    pub result : PackResult
    pub success : r.1 ≡ success_ok result
    pub best : IsBest sizes items result
    pub ready : IsReady IsKept r.0.calculator
    pub same : r.0.calculator.pack_sizes ≡ configured

  by_sizes-IsAnswered :
      (h : Handler C) (items : ℕ) (sizes : List ℤ)
      → IsReady IsKept h.calculator
      → h.calculator.pack_sizes ≡ configured
      → 0 < items
      → All IsPositive sizes
      → HasSmallSums items (or_else sizes configured)
      → Returns (IsAnswered (or_else sizes configured) items) (by_sizes ops h (pos items) sizes)
  unfolding by_sizes respond
  by_sizes-IsAnswered h items [] ready same items_pos positive small =
      Returns->>=
        (calculate-IsBest ops IsKept configured laws h.calculator items ready same items_pos small)
        λ r p.
          returned (record { result = r.1; success = refl; best = p.0; ready = p.1; same = p.2 })
  by_sizes-IsAnswered h items (z ∷ zs) ready same items_pos positive small =
      Returns->>=
        (calculate_with_pack_sizes-IsBest ops h.calculator items (z ∷ zs) ready.usable items_pos
          (λ e. cc) positive small)
        λ r p. returned (record {
          result = r.1;
          success = refl;
          best = p.0;
          ready = record {
            smallest = ready.smallest;
            smallest_last = p.4 ∙ ready.smallest_last;
            menu = rw p.3 ready.menu;
            usable = p.1;
            kept = subst (WhereSome IsKept) (sym p.2) ready.kept;
          };
          same = p.3 ∙ same;
        })

  -- The endpoint, with the sizes that the code chooses.
  pub calculate_packs-offered :
      (h : Handler C) (items : ℕ) (sizes : List ℤ) (answer : Option Fetched) (t : Times)
      → IsReady IsKept h.calculator
      → h.calculator.pack_sizes ≡ configured
      → 0 < items
      → (sizes ≡ [] → All IsPositive (get_pack_sizes h.sizes_cache h.has_sizes_service answer t).1)
      → HasSmallSums items (offered h sizes answer t configured)
      → Returns (IsAnswered (offered h sizes answer t configured) items) (
          calculate_packs ops h
            (some (record { items_ordered = pos items; pack_sizes = sizes }))
            answer
            t)
  unfolding calculate_packs validate answer_sizes
  calculate_packs-offered h items [] answer t ready same items_pos positive small =
      rw (positive_request items items_pos)
        (by_sizes-IsAnswered _ items _ ready same items_pos (positive refl) small)
  calculate_packs-offered h items (z ∷ zs) answer t ready same items_pos positive small =
      rw (positive_request items items_pos) (
        by_sizes-IsAnswered h items (valid_pack_sizes (z ∷ zs)) ready same items_pos
          (valid_pack_sizes-IsPositive (z ∷ zs)) small)

abbrev filled : PackSizesCache → List ℤ → Times → PackSizesCache
filled c zs t = record c { sizes = some zs; expires_at = t.stored + c.ttl }

keep_list :
    (c : PackSizesCache) (t : Times) (zs : List ℤ)
    → zs ≢ []
    → ltb t.tested c.expires_at ≡ false
    → (let r : PackSizesCache × List ℤ = elim zs [
      | [] ↦ (c, [])
      | y ∷ ys ↦ (set_sizes c (y ∷ ys) t.tested t.stored, y ∷ ys)
    ] in
        r)
      ≡ (filled c zs t, zs)
unfolding set_sizes
keep_list c t [] n e = absurd (n refl)
keep_list c t (z ∷ zs) n e = rw e refl

first_lem :
    (c : PackSizesCache) (config : PackSizeConfig) (t : Times)
    → c.expires_at ≤ t.got
    → t.got ≤ t.tested
    → config.sizes ≢ []
    → get_pack_sizes c true (some (fetched config)) t ≡ (filled c config.sizes t, config.sizes)
unfolding get_pack_sizes get_sizes get_active
first_lem c config t old later n =
    let miss : ltb t.got c.expires_at ≡ false = ground arith in
    let free : ltb t.tested c.expires_at ≡ false = ground arith in
    rw (miss, get_pack_sizes) (keep_list c t config.sizes n free)

-- After an expired cache was filled from the database, a request within the time to live gets the
-- same sizes, whatever the database would answer then.
pub get_pack_sizes-kept :
    (c : PackSizesCache) (config : PackSizeConfig) (other : Option Fetched) (t u : Times)
    → c.expires_at ≤ t.got
    → t.got ≤ t.tested
    → config.sizes ≢ []
    → u.got < t.stored + c.ttl
    → let first = get_pack_sizes c true (some (fetched config)) t in
      (first.1 ≡ config.sizes) × ((get_pack_sizes first.0 true other u).1 ≡ config.sizes)
unfolding get_pack_sizes get_sizes
get_pack_sizes-kept c config other t u old later some_sizes in_time =
    let hit : ltb u.got (t.stored + c.ttl) ≡ true = ground arith in
    rw (first_lem c config t old later some_sizes) (refl, rw (hit, get_pack_sizes) refl)
