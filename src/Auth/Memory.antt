-- ===== src/Auth/Memory.antt =====
-- A database that is a list of tokens, with one user, and a library of tokens for it: they serve
-- the tests.
use pack_service.Base.{
  Bool, true, false, ◌&&◌, List, [], ◌∷◌, Option, none, some, ◌==◌, ltb, if◌then◌else◌,
}
use pack_service.Base.Dict.{string_eq, ◌==◌ as str_eq}
use pack_service.Tokens.{ok, User, Token, ClaimsWithJwt, Jwt, TokenRepository, TokenConfig}
use pack_service.Auth.{UserRepository, RoleRepository, Crypto}
use Prim.Native.String.{String}

abbrev pub Store : Type 0
Store = List Token

unfoldable pub find_in : String → Store → Option Token
find_in t [] = none
find_in t (x ∷ xs) = if str_eq x.token t then some x else find_in t xs

unfoldable pub remove_from : String → Store → Store
remove_from t [] = []
remove_from t (x ∷ xs) = let rest = remove_from t xs in if str_eq x.token t then rest else x ∷ rest

unfoldable pub listed : String → Store → Bool
listed t [] = false
listed t (x ∷ xs) =
    let rest = listed t xs in if str_eq x.token t && str_eq x.type "blacklist" then true else rest

abbrev pub repository : TokenRepository Store
repository = record {
  create = λ t d. (t ∷ d, ok true);
  find_by_token = λ t d. (d, ok (find_in t d));
  delete_by_token = λ t d. (remove_from t d, ok true);
  delete_by_user_id = λ id type d. (d, ok true);
  is_blacklisted = λ t d. (d, ok (listed t d));
}

abbrev pub member : User
member = record {
  id = 7;
  email = "u@x";
  username = "u";
  password = "hash";
  name = "U";
  roles = [];
  active = true;
  created_at = 0;
  updated_at = 0;
}

abbrev pub member_claims : ClaimsWithJwt
member_claims = record {
  claims = record { user_id = 7; email = "u@x"; name = "U"; roles = [] };
  expires_at = some 100;
  issued_at = 5;
  not_before = 5;
}

-- A token is one of two texts, by the time of its issue.
abbrev pub library : Jwt
library = record {
  sign = λ secret c. some (if c.issued_at == 5 then "t5" else "t9");
  parse = λ secret token now. if ltb now 100 then some member_claims else none;
  parse_any = λ secret token now. some member_claims;
}

abbrev pub config : TokenConfig
config = record {
  secret_key = "s";
  refresh_secret_key = "r";
  access_token_ttl = 2000000000;
  refresh_token_ttl = 90;
}

abbrev pub members : UserRepository Store
members = record {
  find_by_email = λ e d. (d, ok (if str_eq e "u@x" then some member else none));
  find_by_username = λ n d. (d, ok none);
  find_by_id = λ id d. (d, ok (if id == 7 then some member else none));
  create = λ u d. (d, ok u);
}

abbrev pub no_roles : RoleRepository Store
no_roles = record { find_by_name = λ n d. (d, ok none) }

abbrev pub plain : Crypto
plain = record { matches = λ h p. str_eq p "secret"; hash = λ p. some "hash"; hex = λ n. "id" }
