-- ===== src/ApiKeys/Accepted.antt =====
-- Which requests pass, said by the text of the variable API_KEYS.
use pack_service.Base.{
  ◌≡◌, ◌≢◌, refl, sym, ap, subst, ◌∙◌, ◌⊎◌, inl, inr, ◌↔◌, Bool, true, false, List, [], ◌∷◌, arith,
  if◌then◌else◌, Bool-cases, ◌∈◌, empty-of_mem,
}
use pack_service.Base.Dict.{lookup, put, lookup-put}
use pack_service.Text.{Text, text_key, text_eq, text_eq_iff, split, trim_space}
use pack_service.Text.Trimming.{IsTrimmed, trim_space-IsTrimmed, IsTrimmed-trim_space}
use pack_service.Text.Parts.{IsPart, split-IsPart}
use pack_service.Startup.{filled_parts, add_keys, parse_api_keys}
use pack_service.ApiKeys.{passes, is_valid, key_of, check_key, api_key_auth}

-- A key that a text names: one of its parts between commas, less the spaces around it.
pub record Names (s k : Text) : Type 0 where
  pub part : Text
  pub is_part : IsPart b',' s part
  pub trimmed : IsTrimmed part k
  pub some_key : k ≢ []

-- The key of a request: that of the header, and that of the query where the header has none.
pub data IsKey (header query : Text) : Text → Type 0 where
  in_header : header ≢ [] → IsKey header query header
  in_query : header ≡ [] → IsKey header query query

key_of-IsKey : (header query key : Text) → IsKey header query key → key_of header query ≡ key
key_of-IsKey [] query _ (in_header n) = absurd (n refl)
key_of-IsKey (c ∷ s) query _ (in_header n) = refl
key_of-IsKey [] query _ (in_query e) = refl
key_of-IsKey (c ∷ s) query _ (in_query e) = absurd cc

-- The keys that the code takes from a text
abbrev named_keys : Text → List Text
named_keys s = filled_parts (split b',' s)

filled_parts-mem :
    (ps : List Text) (k : Text)
    → (k ∈ filled_parts ps) ↔ ((k ≢ []) × ((p : Text) × (p ∈ ps) × (trim_space p ≡ k)))
unfolding filled_parts
filled_parts-mem [] k = ((λ m. absurd m), λ r. absurd r.1.1)
filled_parts-mem (p ∷ ps) k = let rest = filled_parts-mem ps k in by_text (trim_space p) refl rest
  where
    IsFrom : List Text → Type 0
    IsFrom qs = (k ≢ []) × ((q : Text) × (q ∈ qs) × (trim_space q ≡ k))

    by_text :
        (t : Text)
        → trim_space p ≡ t
        → ((k ∈ filled_parts ps) ↔ IsFrom ps)
        → (k ∈ (
            let l : List Text = elim t [
              | [] ↦ filled_parts ps
              | c ∷ s ↦ (c ∷ s) ∷ filled_parts ps
            ] in
            l))
          ↔ IsFrom (p ∷ ps)
    by_text [] e rest = (
      (λ m. let r = rest.0 m in (r.0, (r.1.0, inr r.1.1, r.1.2))),
      λ r. elim r.1.1 [
        | inl same ↦ absurd (r.0 (sym r.1.2 ∙ ap trim_space same ∙ e))
        | inr m ↦ rest.1 (r.0, (r.1.0, m, r.1.2))
      ],
    )
    by_text (c ∷ s) e rest = (
      (λ m. elim m [
        | inl same ↦ ((λ h. absurd cc), (p, inl refl, e ∙ sym same))
        | inr n ↦ let r = rest.0 n in (r.0, (r.1.0, inr r.1.1, r.1.2))
      ]),
      λ r. elim r.1.1 [
        | inl same ↦ inl (sym r.1.2 ∙ ap trim_space same ∙ e)
        | inr m ↦ inr (rest.1 (r.0, (r.1.0, m, r.1.2)))
      ],
    )

put-valid :
    (k j : Text) (m : List (Text × Bool))
    → is_valid (put k true m) j ≡ (if text_eq k j then true else is_valid m j)
unfolding is_valid
put-valid k j m = elim (Bool-cases (text_eq k j)) [
  | inl same ↦ rw (is_valid, lookup-put k j true m, same) refl
  | inr other ↦ rw (is_valid, lookup-put k j true m, other) refl
]

add_keys-valid :
    (ks : List Text) (m : List (Text × Bool)) (j : Text)
    → (is_valid (add_keys m ks) j ≡ true) ↔ ((j ∈ ks) ⊎ (is_valid m j ≡ true))
unfolding add_keys
add_keys-valid [] m j = ((λ e. inr e), λ s. elim s [ inl n ↦ absurd n | inr e ↦ e ])
add_keys-valid (k ∷ ks) m j =
    let rest = add_keys-valid ks (put k true m) j in
    let here = put-valid k j m in
    elim (Bool-cases (text_eq k j)) [
      | inl same ↦
          let valid : is_valid (put k true m) j ≡ true = rw same at here in
          ((λ e. inl (inl (sym ((text_eq_iff k j).0 same)))), λ s. rest.1 (inr valid))
      | inr other ↦
          let old : is_valid (put k true m) j ≡ is_valid m j = rw other at here in
          (
            (λ e. elim (rest.0 e) [ inl n ↦ inl (inr n) | inr v ↦ inr (sym old ∙ v) ]),
            λ s. elim s [
              | inl (inl e) ↦
                  absurd (let q : text_eq k j ≡ true = (text_eq_iff k j).1 (sym e) in ground arith)
              | inl (inr n) ↦ rest.1 (inl n)
              | inr v ↦ rest.1 (inr (old ∙ v))
            ],
          )
    ]

filled_parts-ne : (ps : List Text) → ¬ ([] ∈ filled_parts ps)
unfolding filled_parts
filled_parts-ne [] h = h
filled_parts-ne (p ∷ ps) h = skip (trim_space p) (filled_parts ps) (filled_parts-ne ps) h
  where
    skip :
        (t : Text) (rest : List Text)
        → ¬ ([] ∈ rest)
        → ¬ ([] ∈ (let l : List Text = elim t [ [] ↦ rest | c ∷ s ↦ (c ∷ s) ∷ rest ] in l))
    skip [] rest n h = n h
    skip (c ∷ s) rest n (inl e) = cc
    skip (c ∷ s) rest n (inr h) = n h

put-ne-nil : (k : Text) (b : Bool) (m : List (Text × Bool)) → put k b m ≢ []
unfolding put
put-ne-nil k b [] e = cc
put-ne-nil k b ((j, w) ∷ m) e = elim (Bool-cases (text_eq j k)) [
  | inl same ↦ (let q : (k, b) ∷ m ≡ [] = rw same at e in cc)
  | inr other ↦ (let q : (j, w) ∷ put k b m ≡ [] = rw other at e in cc)
]

add_keys-ne-nil : (ks : List Text) (m : List (Text × Bool)) → m ≢ [] → add_keys m ks ≢ []
unfolding add_keys
add_keys-ne-nil [] m h = h
add_keys-ne-nil (k ∷ ks) m h = add_keys-ne-nil ks (put k true m) (put-ne-nil k true m)

parse_api_keys-named : (s : Text) → parse_api_keys s ≡ add_keys [] (named_keys s)
unfolding parse_api_keys filled_parts add_keys
parse_api_keys-named [] = unfold split trim_space in refl
parse_api_keys-named (c ∷ s) = refl

by_key :
    (keys : List (Text × Bool)) (key : Text)
    → is_valid keys [] ≡ false
    → (check_key keys key ≡ passes) ↔ (is_valid keys key ≡ true)
unfolding check_key
by_key keys [] h = ((λ e. absurd (ground arith)), λ e. absurd (ground arith))
by_key keys (c ∷ s) h = elim (Bool-cases (is_valid keys (c ∷ s))) [
  | inl valid ↦ rw (valid, check_key) ((λ e. refl), λ e. refl)
  | inr invalid ↦ rw (invalid, check_key) ((λ e. absurd (ground arith)), λ e. absurd (ground arith))
]

api_key_auth-check_key :
    (keys : List (Text × Bool)) (header query : Text)
    → keys ≢ []
    → api_key_auth keys header query ≡ check_key keys (key_of header query)
unfolding api_key_auth
api_key_auth-check_key [] header query h = absurd (h refl)
api_key_auth-check_key (k ∷ keys) header query h = refl

no_keys-valid : (j : Text) → is_valid [] j ≢ true
unfolding is_valid lookup
no_keys-valid j e = ground arith

only_named : (ks : List Text) (j : Text) → (is_valid (add_keys [] ks) j ≡ true) ↔ (j ∈ ks)
only_named ks j =
    let both = add_keys-valid ks [] j in
    ((λ e. elim (both.0 e) [ inl m ↦ m | inr v ↦ absurd (no_keys-valid j v) ]), λ m. both.1 (inl m))

passes-mem :
    (ks : List Text) (header query : Text)
    → ¬ ([] ∈ ks)
    → (api_key_auth (add_keys [] ks) header query ≡ passes)
      ↔ ((ks ≡ []) ⊎ (key_of header query ∈ ks))
passes-mem [] header query n = unfold api_key_auth add_keys in ((λ e. inl refl), λ s. refl)
passes-mem (k ∷ ks) header query n =
    let keys = add_keys [] (k ∷ ks) in
    let some_keys : keys ≢ [] =
      unfold add_keys in add_keys-ne-nil ks (put k true []) (put-ne-nil k true []) in
    let check = api_key_auth-check_key keys header query some_keys in
    let no_empty : is_valid keys [] ≡ false = elim (Bool-cases (is_valid keys [])) [
      | inl v ↦ absurd (n ((only_named (k ∷ ks) []).0 v))
      | inr v ↦ v
    ] in
    let named = only_named (k ∷ ks) (key_of header query) in
    let decided = by_key keys (key_of header query) no_empty in
    (
      (λ e. inr (named.0 (decided.0 (sym check ∙ e)))),
      λ s. elim s [ inl e ↦ absurd (ground arith) | inr m ↦ check ∙ decided.1 (named.1 m) ],
    )

named_keys-Names : (s k : Text) → (k ∈ named_keys s) ↔ Names s k
named_keys-Names s k =
    let parts = split b',' s in
    let filled = filled_parts-mem parts k in
    (
      (λ m.
          let r = filled.0 m in
          record {
            part = r.1.0;
            is_part = (split-IsPart b',' s r.1.0).0 r.1.1;
            trimmed = subst (IsTrimmed r.1.0) r.1.2 (trim_space-IsTrimmed r.1.0);
            some_key = r.0;
          }),
      λ n. filled.1 (
        n.some_key,
        (
          n.part,
          (split-IsPart b',' s n.part).1 n.is_part,
          IsTrimmed-trim_space n.part k n.some_key n.trimmed,
        ),
      ),
    )

named_keys-none : (s : Text) → (named_keys s ≡ []) ↔ ((k : Text) → ¬ Names s k)
named_keys-none s = (
  (λ e k n. absurd (subst (λ ks. k ∈ ks) e ((named_keys-Names s k).1 n))),
  λ h. empty-of_mem (named_keys s) (λ k m. h k ((named_keys-Names s k).0 m)),
)

-- A request passes exactly when the variable API_KEYS names no keys, or when it names the key in
-- the header X-API-Key, or in the query parameter api_key if the header is not there. The keys that
-- it names are its parts between commas, less the spaces around them, that are not empty.
pub api_key_auth-mem :
    (s header query key : Text)
    → IsKey header query key
    → (api_key_auth (parse_api_keys s) header query ≡ passes)
      ↔ (((k : Text) → ¬ Names s k) ⊎ Names s key)
api_key_auth-mem s header query key is_key =
    let code = passes-mem (named_keys s) header query (filled_parts-ne (split b',' s)) in
    let none_named = named_keys-none s in
    let named = named_keys-Names s key in
    let taken = key_of-IsKey header query key is_key in
    rw (parse_api_keys-named s) (
      (λ e. elim (code.0 e) [
        | inl empty ↦ inl (none_named.0 empty)
        | inr m ↦ inr (named.0 (subst (λ k. k ∈ named_keys s) taken m))
      ]),
      λ r. elim r [
        | inl none ↦ code.1 (inl (none_named.1 none))
        | inr n ↦ code.1 (inr (subst (λ k. k ∈ named_keys s) (sym taken) (named.1 n)))
      ],
    )
