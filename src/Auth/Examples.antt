-- ===== src/Auth/Examples.antt =====
-- The services over a store that is a list of tokens, and each theorem on tokens at an input.
use pack_service.Base.{◌≡◌, ◌≢◌, refl, Bool-cases, [], ◌∷◌, none, some, inl, inr, arith}
use pack_service.Base.Dict.{string_eq, ◌==◌ as str_eq}
use pack_service.Tokens.{
  ok, Token, TokenPair, issue, generate_token_pair, validate_access_token, validate_refresh_token,
  invalidate_access_token,
}
use pack_service.Auth.{login, refresh_token}
use pack_service.Auth.Memory.{
  Store, find_in, remove_from, repository, library, config, members, no_roles, plain,
}
use pack_service.Auth.Sessions.{StoreLaws, refresh_token-once}
use Prim.Native.String.{String}

program : Unit {0}
unfolding issue generate_token_pair validate_access_token validate_refresh_token
    invalidate_access_token login refresh_token
program = tt

IsGone : String → Store → Type 0
IsGone t d = find_in t d ≡ none

find_in-remove_from : (t : String) (d : Store) → find_in t (remove_from t d) ≡ none
unfolding find_in remove_from
find_in-remove_from t [] = refl
find_in-remove_from t (x ∷ d) = elim (Bool-cases (str_eq x.token t)) [
  | inl same ↦ rw same (find_in-remove_from t d)
  | inr other ↦ rw (other, other) (find_in-remove_from t d)
]

repository-StoreLaws : StoreLaws repository IsGone
unfolding IsGone find_in
repository-StoreLaws = record {
  delete_gone = λ t d b e. find_in-remove_from t d;
  create_gone = λ t new d gone n. elim (Bool-cases (str_eq new.token t)) [
    | inl same ↦ absurd (n ((string_eq.beq_iff new.token t).0 same))
    | inr other ↦ rw other gone
  ];
  find_gone =
      λ t d x gone e. (let q : find_in t d ≡ some x = ground arith in absurd (ground arith));
}

abbrev first_token : Token
first_token = record {
  id = 1;
  user_id = 7;
  token = "t5";
  type = "refresh";
  expires_at = 95;
  created_at = 5;
}

abbrev pair_at : String → TokenPair
pair_at t = record { access_token = t; refresh_token = t; expires_in = 2 }

refreshed :
    (refresh_token library repository config members no_roles plain "t5" 9 (first_token ∷ [])).1
    ≡ ok (pair_at "t9")
unfolding program find_in
refreshed = refl

another : (pair_at "t9").refresh_token ≢ "t5"
another = λ e. cc

refresh_token-once_example :
    (refresh_token library repository config members no_roles plain "t5" 10
      (refresh_token library repository config members no_roles plain "t5" 9
        (first_token ∷ [])).0).1
    ≢ ok (pair_at "t9")
refresh_token-once_example =
    refresh_token-once library repository config members no_roles plain IsGone repository-StoreLaws
      "t5" 9 10 (first_token ∷ []) (pair_at "t9") (pair_at "t9") refreshed another
