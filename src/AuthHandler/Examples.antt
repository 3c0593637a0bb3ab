-- ===== src/AuthHandler/Examples.antt =====
-- Requests to log in and to log out, over a store that is a list of tokens.
use pack_service.Base.{
  ℕ, ◌≡◌, ◌≢◌, refl, sym, ◌∙◌, true, false, ◌&&◌, Bool-cases, List, [], ◌∷◌, Option, none, some,
  inl, inr, arith, All,
}
use pack_service.Base.Dict.{string_eq, ◌==◌ as str_eq}
use pack_service.Tokens.{
  ok, User, TokenPair, issue, generate_token_pair, validate_access_token, validate_refresh_token,
  invalidate_access_token,
}
use pack_service.Auth.{login, refresh_token, logout}
use pack_service.Auth.Memory.{
  Store, find_in, remove_from, listed, repository, library, config, members, no_roles, plain,
}
use pack_service.AuthHandler.{
  LoginRequest, validate_login, validate_register, Body, login_response, logged_out, bearer,
  bearer_of, refused, admitted, jwt_auth, login_handler, refresh_handler, logout_handler,
}
use pack_service.AuthHandler.Logins.{IsRejected, login_handler-IsAuthentic}
use pack_service.AuthHandler.Logouts.{RevocationLaws}
use pack_service.AuthHandler.Visits.{
  Visit, login_of, refresh_of, logout_of, check_of, Spares, visits, logout_handler-jwt_auth,
}
use pack_service.Replies.{success_of, error_of}
use Prim.Native.String.{String}

program : Unit {0}
unfolding issue generate_token_pair validate_access_token validate_refresh_token
    invalidate_access_token login refresh_token logout login_handler refresh_handler logout_handler
    jwt_auth find_in remove_from listed
program = tt

IsRevoked : String → Store → Type 0
IsRevoked t d = listed t d ≡ true

listed-remove_from :
    (x t : String) → x ≢ t → (d : Store) → listed t d ≡ true → listed t (remove_from x d) ≡ true
unfolding listed remove_from
listed-remove_from x t other [] h = h
listed-remove_from x t other (y ∷ d) h = elim (Bool-cases (str_eq y.token x)) [
  | inl gone ↦
      let is_x : y.token ≡ x = (string_eq.beq_iff y.token x).0 gone in
      elim (Bool-cases (str_eq y.token t)) [
        | inl same ↦ absurd (other (sym is_x ∙ (string_eq.beq_iff y.token t).0 same))
        | inr differs ↦ rw gone (listed-remove_from x t other d (rw differs at h))
      ]
  | inr stays ↦ elim (Bool-cases (str_eq y.token t && str_eq y.type "blacklist")) [
    | inl here ↦ rw (stays, here) refl
    | inr there ↦ rw (stays, there) (listed-remove_from x t other d (rw there at h))
  ]
]

repository-RevocationLaws : RevocationLaws repository members no_roles IsRevoked
unfolding listed IsRevoked
repository-RevocationLaws = record {
  create_revokes = λ t d b e h.
      let same : str_eq t.token t.token ≡ true = (string_eq.beq_iff t.token t.token).1 refl in
      let type : str_eq t.type "blacklist" ≡ true = (string_eq.beq_iff t.type "blacklist").1 e in
      rw (same, type) refl;
  is_found = λ t d h e. absurd (ground arith);
  delete_keeps = λ x t other d h. listed-remove_from x t other d h;
  delete_refresh_keeps = λ id t d h. h;
  create_keeps = λ x t d h. elim (Bool-cases (str_eq x.token t && str_eq x.type "blacklist")) [
    | inl here ↦ rw here refl
    | inr there ↦ rw there h
  ];
  find_keeps = λ x t d h. h;
  check_keeps = λ x t d h. h;
  find_email_keeps = λ x t d h. h;
  find_username_keeps = λ x t d h. h;
  find_id_keeps = λ id t d h. h;
  create_user_keeps = λ u t d h. h;
  find_role_keeps = λ x t d h. h;
}

abbrev request : String → LoginRequest
request password = record { email = "u@x"; password = password }

validate-test :
    (validate_login (record { email = ""; password = "secret" })
      ≡ some (record { field = "email"; message = "email is required" }))
    × (validate_register (record { email = "u@x"; username = "éa"; password = "secret"; name = "" })
        ≡ none)
unfolding validate_login validate_register
validate-test = (refl, refl)

valid : validate_login (request "secret") ≡ none
unfolding validate_login
valid = refl

login_handler-IsAuthentic_example :
    ((found : Option User)
      → (members.find_by_email "u@x" []).1 ≡ ok found
      → IsRejected library repository config members no_roles plain "secret" found
      → login_handler library repository config members no_roles plain
          (some (request "secret"))
          5
          []
        ≡ ((members.find_by_email "u@x" []).0, error_of 401 "unauthorized"))
    × ((b : Body)
        → (login_handler library repository config members no_roles plain
            (some (request "secret"))
            5
            []).1
          ≡ success_of 200 b
        → (pair : TokenPair) × (user : User) × (b
            ≡ login_response pair.access_token pair.refresh_token user.email user.name)
          × ((members.find_by_email "u@x" []).1 ≡ ok (some user))
          × (user.active ≡ true)
          × (user.id ≢ 0)
          × (plain.matches user.password "secret" ≡ true))
login_handler-IsAuthentic_example =
    login_handler-IsAuthentic library repository config members no_roles plain (request "secret") 5
      [] valid

login_handler-test :
    ((login_handler library repository config members no_roles plain
        (some (request "secret"))
        5
        []).1
      ≡ success_of 200 (login_response "t5" "t5" "u@x" "U"))
    × ((login_handler library repository config members no_roles plain
          (some (request "guess1"))
          5
          []).1
        ≡ error_of 401 "unauthorized")
unfolding program validate_login
login_handler-test = (refl, refl)

header_token : bearer_of "Bearer t5" ≡ bearer "t5"
unfolding bearer_of
header_token = refl

logged_out-test :
    (logout_handler library repository config members no_roles plain "Bearer t5" "r1" 9 []).1
    ≡ success_of 200 logged_out
unfolding program
logged_out-test = refl

-- Where the header X-Refresh-Token names the access token itself, the logout takes its own entry
-- away.
own_token-test :
    (let d =
        (logout_handler library repository config members no_roles plain "Bearer t5" "t5" 9 []).0 in
      (jwt_auth library repository config members no_roles plain "Bearer t5" 10 d).1)
    ≡ admitted (record { user_id = 7; email = "u@x"; name = "U"; roles = [] })
unfolding program
own_token-test = refl

abbrev later_visits : List (Visit × ℕ)
later_visits =
    (login_of (some (request "secret")), 10)
    ∷ (refresh_of "t9", 12)
    ∷ (check_of "Bearer t5", 13)
    ∷ (logout_of "Bearer t9" "r2", 14)
    ∷ []

differ : (a b : String) → str_eq a b ≡ false → a ≢ b
differ a b h e = let same : str_eq a b ≡ true = (string_eq.beq_iff a b).1 e in ground arith

spared : All (Spares "t5") later_visits
spared = (tt, (differ "t9" "t5" refl, (tt, (differ "r2" "t5" refl, tt))))

logout_handler-jwt_auth_example :
    (jwt_auth library repository config members no_roles plain "Bearer t5" 50 (
      visits library repository config members no_roles plain later_visits
        (logout_handler library repository config members no_roles plain "Bearer t5" "r1" 9
          []).0)).1
    ≡ refused "error.invalid_token"
logout_handler-jwt_auth_example =
    logout_handler-jwt_auth library repository config members no_roles plain IsRevoked
      repository-RevocationLaws "t5" "Bearer t5" "r1" 9 50 [] later_visits header_token
      (differ "r1" "t5" refl) logged_out-test spared
