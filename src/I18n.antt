-- ===== src/I18n.antt =====
-- internal/i18n/i18n.go and internal/i18n/keys.go: the language of a request and the messages in
-- it. A header is a text of code points. Go's `unicode.ToLower` is a parameter above ASCII.
pub mod Locales
mod Examples
use pack_service.Base.{
  ℕ, suc, ◌+◌, Bool, true, false, ◌&&◌, List, [], ◌∷◌, map, Option, none, some, ltb, leb, ◌==◌,
  if◌then◌else◌, take,
}
use pack_service.Base.Dict.{string_eq, lookup}
use pack_service.Text.{Text, codes, text_key, trim_space, split}
use Prim.Native.String.{String}

-- The messages of one language, by their keys.
abbrev pub Messages : Type 0
Messages = List (String × String)

abbrev pub english : Messages
english =
    ("error.invalid_request", "Invalid request")
    ∷ ("error.invalid_request_body", "Invalid request body")
    ∷ ("error.internal_error", "An unexpected error occurred")
    ∷ ("error.unauthorized", "Unauthorized")
    ∷ ("error.invalid_credentials", "User Not registered")
    ∷ ("error.api_key_required", "API key is required")
    ∷ ("error.invalid_api_key", "Invalid API key")
    ∷ ("error.forbidden", "Forbidden")
    ∷ ("error.not_found", "Not found")
    ∷ ("error.rate_limit_exceeded", "Too many requests, please try again later")
    ∷ ("error.conflict", "Conflict")
    ∷ ("error.validation.items_ordered", "items_ordered: must be a positive integer")
    ∷ ("error.invalid_token", "Invalid or expired token")
    ∷ ("error.token_required", "Authentication token is required")
    ∷ ("success.pack_calculated", "Pack calculation completed successfully")
    ∷ []

abbrev pub portuguese : Messages
portuguese =
    ("error.invalid_request", "Requisição inválida")
    ∷ ("error.invalid_request_body", "Corpo da requisição inválido")
    ∷ ("error.internal_error", "Ocorreu um erro inesperado")
    ∷ ("error.unauthorized", "Não autorizado")
    ∷ ("error.invalid_credentials", "Usuário não registrado")
    ∷ ("error.api_key_required", "Chave de API é obrigatória")
    ∷ ("error.invalid_api_key", "Chave de API inválida")
    ∷ ("error.forbidden", "Proibido")
    ∷ ("error.not_found", "Não encontrado")
    ∷ ("error.rate_limit_exceeded", "Muitas requisições, tente novamente mais tarde")
    ∷ ("error.conflict", "Conflito")
    ∷ ("error.validation.items_ordered", "items_ordered: deve ser um inteiro positivo")
    ∷ ("error.invalid_token", "Token inválido ou expirado")
    ∷ ("error.token_required", "Token de autenticação é obrigatório")
    ∷ ("success.pack_calculated", "Cálculo de pacotes concluído com sucesso")
    ∷ []

abbrev pub dutch : Messages
dutch =
    ("error.invalid_request", "Ongeldig verzoek")
    ∷ ("error.invalid_request_body", "Ongeldige aanvraag body")
    ∷ ("error.internal_error", "Er is een onverwachte fout opgetreden")
    ∷ ("error.unauthorized", "Niet geautoriseerd")
    ∷ ("error.invalid_credentials", "Gebruiker niet geregistreerd")
    ∷ ("error.api_key_required", "API-sleutel is vereist")
    ∷ ("error.invalid_api_key", "Ongeldige API-sleutel")
    ∷ ("error.forbidden", "Verboden")
    ∷ ("error.not_found", "Niet gevonden")
    ∷ ("error.rate_limit_exceeded", "Te veel verzoeken, probeer het later opnieuw")
    ∷ ("error.conflict", "Conflict")
    ∷ ("error.validation.items_ordered", "items_ordered: moet een positief geheel getal zijn")
    ∷ ("error.invalid_token", "Ongeldig of verlopen token")
    ∷ ("error.token_required", "Authenticatietoken is vereist")
    ∷ ("success.pack_calculated", "Pakketberekening succesvol voltooid")
    ∷ []

-- `DefaultLocale`
abbrev pub default_locale : Text
default_locale = codes "en"

-- `Translator`
abbrev pub Translator : Type 0
Translator = List (Text × Messages)

-- `getDefaultMessages`
abbrev pub default_messages : Translator
default_messages = (codes "en", english) ∷ (codes "pt", portuguese) ∷ (codes "nl", dutch) ∷ []

abbrev pub or_default_locale : Text → Text
or_default_locale [] = default_locale
or_default_locale (c ∷ s) = c ∷ s

-- A map that is nil has no keys.
abbrev pub or_no_messages : Option Messages → Messages
or_no_messages none = []
or_no_messages (some m) = m

abbrev pub or_key : String → Option String → String
or_key key none = key
or_key key (some message) = message

-- `Translate`
unfoldable pub translate : Translator → String → Text → String
translate t key locale =
    let defaults = or_no_messages (lookup default_locale t) in
    let own : Messages = elim (lookup (or_default_locale locale) t) [
      | none ↦ defaults
      | some m ↦ m
    ] in
    elim (lookup key own) [ none ↦ or_key key (lookup key defaults) | some message ↦ message ]

-- `strings.Index`, for a separator of one character
unfoldable pub index : ℕ → Text → Option ℕ
index sep [] = none
index sep (c ∷ s) =
    let later = index sep s in
    if c == sep then some 0 else elim later [ none ↦ none | some i ↦ some (suc i) ]

abbrev pub first : List Text → Text
first [] = []
first (p ∷ ps) = p

-- What stands in front of the first `-`, if that is not empty.
unfoldable pub base_language : Text → Text
unfolding index
base_language lang = elim (index b'-' lang) [
  | none ↦ lang
  | some i ↦ if ltb 0 i then take i lang else lang
]

module _ (unicode_lower : ℕ → ℕ) where
  -- `strings.ToLower`
  abbrev pub lower : ℕ → ℕ
  lower c = if ltb c 128 then (if leb b'A' c && leb c b'Z' then c + 32 else c) else unicode_lower c

  abbrev pub to_lower : Text → Text
  to_lower s = map lower s

  abbrev pub supported_or_default : Text → Text
  supported_or_default lang = elim (lookup lang default_messages) [
    | none ↦ default_locale
    | some m ↦ lang
  ]

  -- `GetLocale`, of the header `Accept-Language`
  unfoldable pub get_locale : Text → Text
  unfolding base_language
  get_locale [] = default_locale
  get_locale (c ∷ s) =
      supported_or_default
        (to_lower (base_language (trim_space (first (split b';' (first (split b',' (c ∷ s))))))))

-- The keys of internal/i18n/keys.go
abbrev pub error_timeout : String
error_timeout = "error.timeout"

abbrev pub keys : List String
keys =
    "error.invalid_request" ∷ "error.invalid_request_body" ∷ "error.internal_error"
    ∷ "error.unauthorized" ∷ "error.invalid_credentials" ∷ "error.api_key_required"
    ∷ "error.invalid_api_key" ∷ "error.forbidden" ∷ "error.not_found" ∷ "error.rate_limit_exceeded"
    ∷ "error.conflict" ∷ "error.validation.items_ordered" ∷ "error.invalid_token"
    ∷ "error.token_required" ∷ error_timeout ∷ "success.pack_calculated" ∷ []
