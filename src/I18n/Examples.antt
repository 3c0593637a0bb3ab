-- ===== src/I18n/Examples.antt =====
-- Languages of headers, and a message in Portuguese.
use pack_service.Base.{ℕ, ◌≡◌, ◌≢◌, refl, inl, inr, ◌∈◌}
use pack_service.Base.Dict.{lookup}
use pack_service.Text.{codes, trim_space, split}
use pack_service.I18n.{default_messages, translate, get_locale, keys, error_timeout}
use pack_service.I18n.Locales.{IsTranslated, translate-get_locale}

abbrev same : ℕ → ℕ
same c = c

get_locale-test :
    (get_locale same (codes " PT-br;q=0.9, en") ≡ codes "pt")
    × (get_locale same (codes "fr,nl") ≡ codes "en")
    × (get_locale same (codes "-nl") ≡ codes "en")
    × (get_locale same (codes "nl") ≡ codes "nl")
unfolding get_locale trim_space split lookup
get_locale-test = (refl, refl, refl, refl)

-- A language that is not there has the messages of the default, and a key without a message is
-- shown itself.
translate-test :
    (translate default_messages "error.conflict" (codes "fr") ≡ "Conflict")
    × (translate default_messages error_timeout (codes "pt") ≡ "error.timeout")
unfolding translate lookup
translate-test = (refl, refl)

is_key : "error.invalid_credentials" ∈ keys
is_key = inr (inr (inr (inr (inl refl))))

not_timeout : "error.invalid_credentials" ≢ error_timeout
not_timeout = λ e. cc

translate-get_locale_example :
    IsTranslated (get_locale same (codes "pt-BR,en;q=0.5")) "error.invalid_credentials"
translate-get_locale_example =
    translate-get_locale same (codes "pt-BR,en;q=0.5") "error.invalid_credentials" is_key
      not_timeout
