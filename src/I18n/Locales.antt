-- ===== src/I18n/Locales.antt =====
-- Every request is answered in a language that is supported, and the keys have messages in all of
-- them.
use pack_service.Base.{
  ℕ, ◌≡◌, ◌≢◌, refl, sym, subst, ◌⊎◌, inl, inr, Bool, true, false, ◌&&◌, ◌||◌, List, [], ◌∷◌, none,
  some, arith, Bool-cases, Option-cases, ◌∈◌,
}
use pack_service.Base.Dict.{string_eq, lookup, ◌==◌}
use pack_service.Text.{Text, codes, text_key, text_eq, text_eq_iff}
use pack_service.I18n.{
  Messages, Translator, english, portuguese, dutch, default_messages, translate,
  supported_or_default, get_locale, keys, error_timeout,
}
use Prim.Native.String.{String}

abbrev IsSupported : Text → Type 0
IsSupported s = (s ≡ codes "en") ⊎ (s ≡ codes "pt") ⊎ (s ≡ codes "nl")

supported_or_default-IsSupported :
    (unicode_lower : ℕ → ℕ) (lang : Text) → IsSupported (supported_or_default unicode_lower lang)
unfolding lookup
supported_or_default-IsSupported unicode_lower lang =
    elim (Bool-cases (text_eq (codes "en") lang)) [
      | inl en ↦ rw en (inl (sym ((text_eq_iff (codes "en") lang).0 en)))
      | inr not_en ↦ elim (Bool-cases (text_eq (codes "pt") lang)) [
        | inl pt ↦ rw (not_en, pt) (inr (inl (sym ((text_eq_iff (codes "pt") lang).0 pt))))
        | inr not_pt ↦ elim (Bool-cases (text_eq (codes "nl") lang)) [
          | inl nl ↦
              rw (not_en, not_pt, nl) (inr (inr (sym ((text_eq_iff (codes "nl") lang).0 nl))))
          | inr not_nl ↦ rw (not_en, not_pt, not_nl) (inl refl)
        ]
      ]
    ]

get_locale-IsSupported :
    (unicode_lower : ℕ → ℕ) (header : Text) → IsSupported (get_locale unicode_lower header)
unfolding get_locale
get_locale-IsSupported unicode_lower [] = inl refl
get_locale-IsSupported unicode_lower (c ∷ s) = supported_or_default-IsSupported unicode_lower _

-- A key has a message in a table.
abbrev HasMessage : Messages → String → Type 0
HasMessage m key = (message : String) × (lookup key m ≡ some message)

found : Messages → String → Bool
found m key = (error_timeout == key) || elim (lookup key m) [ none ↦ false | some message ↦ true ]

found-HasMessage :
    (m : Messages) (key : String) → found m key ≡ true → key ≢ error_timeout → HasMessage m key
unfolding found
found-HasMessage m key h n = elim (Option-cases (lookup key m)) [
  | inl missing ↦ elim (Bool-cases (error_timeout == key)) [
    | inl same ↦ absurd (n (sym ((string_eq.beq_iff error_timeout key).0 same)))
    | inr other ↦ absurd (let q : false ≡ true = rw (other, missing) at h in ground arith)
  ]
  | inr (message, e) ↦ (message, e)
]

all_found : Messages → List String → Bool
all_found m [] = true
all_found m (k ∷ ks) = found m k && all_found m ks

all_found-HasMessage :
    (m : Messages) (ks : List String) (key : String)
    → all_found m ks ≡ true
    → key ∈ ks
    → key ≢ error_timeout
    → HasMessage m key
unfolding all_found
all_found-HasMessage m [] key h i n = absurd i
all_found-HasMessage m (k ∷ ks) key h (inl here) n =
    found-HasMessage m key (subst (λ x. found m x ≡ true) (sym here) (ground arith)) n
all_found-HasMessage m (k ∷ ks) key h (inr later) n =
    all_found-HasMessage m ks key (ground arith) later n

-- The message of a supported language
translate-lookup :
    (t : Translator) (locale : Text) (m : Messages) (key message : String)
    → locale ≢ []
    → lookup locale t ≡ some m
    → lookup key m ≡ some message
    → translate t key locale ≡ message
unfolding translate
translate-lookup t [] m key message n h e = absurd (n refl)
translate-lookup t (c ∷ s) m key message n h e = rw (h, translate, e) refl

abbrev pub IsTranslated : Text → String → Type 0
IsTranslated locale key =
    (m : Messages) × (message : String) × (lookup locale default_messages ≡ some m)
    × (lookup key m ≡ some message)
    × (translate default_messages key locale ≡ message)

in_table :
    (locale : Text) (m : Messages) (key : String)
    → locale ≢ []
    → lookup locale default_messages ≡ some m
    → all_found m keys ≡ true
    → key ∈ keys
    → key ≢ error_timeout
    → IsTranslated locale key
in_table locale m key n h all i other =
    let (message, e) = all_found-HasMessage m keys key all i other in
    (m, message, h, e, translate-lookup default_messages locale m key message n h e)

-- For every header Accept-Language, however characters beyond ASCII are lowered: a key of keys.go
-- other than error.timeout is translated to its message in the table of the language that is found
-- for the header, and never falls back to another language or to the key itself.
pub translate-get_locale :
    (unicode_lower : ℕ → ℕ) (header : Text) (key : String)
    → key ∈ keys
    → key ≢ error_timeout
    → IsTranslated (get_locale unicode_lower header) key
unfolding lookup all_found found
translate-get_locale unicode_lower header key i n =
    elim (get_locale-IsSupported unicode_lower header) [
      | inl en ↦ rw en (in_table (codes "en") english key (λ e. cc) refl refl i n)
      | inr (inl pt) ↦ rw pt (in_table (codes "pt") portuguese key (λ e. cc) refl refl i n)
      | inr (inr nl) ↦ rw nl (in_table (codes "nl") dutch key (λ e. cc) refl refl i n)
    ]
